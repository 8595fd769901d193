-- ===== src/Users/Policy.antt =====
-- ii/db.go: type UDB, its policy file (loadPolicy, UserStatus). Go's package regexp is a parameter:
-- `compile` gives no expression for a text that is none, and `matches` finds one in a text.
use ii_go.Base.{
  ltb, leb, ◌==◌, if◌then◌else◌, Bytes, codes, ℤ, pos, neg, ℕ, ◌+◌, ◌-◌, ◌*◌, ◌^◌, Bool, true,
  false, ◌&&◌, Option, none, some, List, [], ◌∷◌, ◌++◌,
}
use ii_go.Strings.{split}
use ii_go.Db.State.Files.{filesize, contents, lines}
use ii_go.Users.{User}

-- type UserPolicy; nil expressions match everything.
pub record UserPolicy (Regex : Type 0) : Type 0 where
  pub name : Option Regex
  pub mail : Option Regex
  pub country : Option Regex
  pub status : Bytes

-- type UDB, with the files it stands for; `policy_file` is `none` too where PolicyPath is "". The
-- source's maps are nil until the first load: reads of them find nothing, as in an empty map.
pub record Udb (Regex : Type 0) : Type 0 where
  pub file : Option Bytes
  pub policy_file : Option Bytes
  pub names : List (Bytes × User)
  pub by_id : List (ℤ × Bytes)
  pub secrets : List (Bytes × Bytes)
  pub list : List Bytes
  pub file_size : ℕ
  pub policy : List (UserPolicy Regex)
  pub policy_size : ℕ
  pub new_users_max : ℤ
  pub new_users : ℕ
  pub locked : Bool

-- OpenUsers, on the files that its two paths name
unfoldable pub open_users : {Regex : Type 0} → Option Bytes → Option Bytes → Udb Regex
open_users file policy_file = record {
  file = file;
  policy_file = policy_file;
  names = [];
  by_id = [];
  secrets = [];
  list = [];
  file_size = 0;
  policy = [];
  policy_size = 0;
  new_users_max = pos 0;
  new_users = 0;
  locked = false;
}

all_digits : Bytes → Bool
all_digits [] = true
all_digits (c ∷ s) = leb b'0' c && leb c b'9' && all_digits s

digits_value : Bytes → ℕ → ℕ
digits_value [] n = n
digits_value (c ∷ s) n = digits_value s (n * 10 + (c - b'0'))

-- The value of a number's digits behind its sign, at most the greatest int64.
clamp : Bool → ℕ → ℤ
clamp false n = if ltb n (2 ^ 63) then pos n else pos (2 ^ 63 - 1)
clamp true n = if leb n (2 ^ 63) then neg (pos n) else neg (pos (2 ^ 63))

unsigned : Bool → Bytes → ℤ
unsigned negative [] = pos 0
unsigned negative (c ∷ s) =
    if all_digits (c ∷ s) then clamp negative (digits_value (c ∷ s) 0) else pos 0

-- `n, _ := strconv.Atoi(s)`: 0 for a text that is no number, the nearest value for one out of range.
unfoldable pub atoi : Bytes → ℤ
unfolding all_digits digits_value clamp unsigned
atoi [] = pos 0
atoi (c ∷ s) =
    if c == b'-'
    then unsigned true s
    else if c == b'+'
    then unsigned false s
    else unsigned false (c ∷ s)

module _ {Regex : Type 0} (compile : Bytes → Option Regex) where
  -- One line of the policy file, split at its colons.
  unfoldable pub policy_columns : Bytes → List Bytes → Udb Regex → Udb Regex
  policy_columns line (name ∷ mail ∷ country ∷ status ∷ rest) db = record db {
    policy =
        db.policy
        ++ record {
          name = compile name;
          mail = compile mail;
          country = compile country;
          status = status;
        }
          ∷ [];
  }
  policy_columns line (one ∷ []) db = record db { new_users_max = atoi line }
  policy_columns line _ db = db

  unfoldable pub policy_lines : List Bytes → Udb Regex → Udb Regex
  policy_lines [] db = db
  policy_lines (line ∷ ls) db = policy_lines ls (policy_columns line (split line b':') db)

  -- loadPolicy: a file of the size last seen is not read again.
  unfoldable pub load_policy : Udb Regex → Udb Regex
  load_policy db =
      let size = filesize db.policy_file in
      if db.policy_size == size
      then db
      else policy_lines (lines (contents db.policy_file))
          (record db { policy_size = size; policy = [] })

module _ {Regex : Type 0} (matches : Regex → Bytes → Bool) where
  abbrev pub passes : Option Regex → Bytes → Bool
  passes none s = true
  passes (some r) s = matches r s

  unfoldable pub first_status : List (UserPolicy Regex) → Bytes → Bytes → Bytes → Bytes
  first_status [] name mail country = codes "status/new"
  first_status (v ∷ vs) name mail country =
      if passes v.name name && passes v.mail mail && passes v.country country
      then v.status
      else first_status vs name mail country

  -- UserStatus
  unfoldable pub user_status : Udb Regex → Bytes → Bytes → Bytes → Bytes
  user_status db name mail country = first_status db.policy name mail country
