-- ===== src/Users.antt =====
-- ii/db.go, the users: type User, the tests on names and passwords, and the secret of a password.
pub mod Policy
pub mod Load
pub mod Account
pub mod Laws
pub mod Tests
use ii_go.Base.{
  ltb, leb, if◌then◌else◌, length, take, Bytes, codes, ℤ, pos, same_int, Bool, ◌&&◌, not, Option,
  none, some, List, [], ◌∷◌,
}
use ii_go.Strings.{join, contains_any, has_prefix, has_suffix}
use ii_go.Decimal.{print_int}
use ii_go.Base64
use ii_go.Msg.Tags.{Tags, no_tags, to_string}

-- type User; the id is an int32.
pub record User : Type 0 where
  pub id : ℤ
  pub name : Bytes
  pub mail : Bytes
  pub secret : Bytes
  pub tags : Tags

-- What a map gives for a missing key.
abbrev pub no_user : User
no_user = record { id = pos 0; name = []; mail = []; secret = []; tags = no_tags }

-- IsUsername
unfoldable pub is_username : Bytes → Bool
is_username u =
    not (contains_any u (b':' ∷ b'\n' ∷ b'\r' ∷ b'\t' ∷ b'/' ∷ []))
    && not (has_prefix u (codes " "))
    && not (has_suffix u (codes " "))
    && leb (length u) 16
    && ltb 2 (length u)

-- IsPassword
unfoldable pub is_password : Bytes → Bool
is_password u = leb 1 (length u)

-- MakeSecret
unfoldable pub make_secret : (Bytes → Bytes) → Bytes → Bytes
make_secret sha256 msg = take 10 (Base64.encode Base64.url (sha256 msg))

-- fmt.Sprintf("%d:%s:%s:%s:%s", …), the line of a user
unfoldable pub user_line : User → Bytes
user_line u = join (print_int u.id ∷ u.name ∷ u.mail ∷ u.secret ∷ to_string u.tags ∷ []) b':'

-- The maps with an int32 key.
unfoldable pub get_id : List (ℤ × Bytes) → ℤ → Option Bytes
get_id [] id = none
get_id ((j, n) ∷ m) id = if same_int j id then some n else get_id m id

unfoldable pub put_id : List (ℤ × Bytes) → ℤ → Bytes → List (ℤ × Bytes)
put_id [] id n = (id, n) ∷ []
put_id ((j, k) ∷ m) id n = if same_int j id then (j, n) ∷ m else (j, k) ∷ put_id m id n
