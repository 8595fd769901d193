-- ===== src/Users/Account.antt =====
-- ii/db.go: the lookups of UDB, and Auth, Access, Add and Edit.
use ii_go.Base.{
  ltb, ◌==◌, if◌then◌else◌, Bytes, codes, str_eq, ℤ, pos, negsuc, neg, ℕ, ◌+◌, ◌^◌, Bool, true,
  false, not, Option, none, some, List, [], ◌∷◌, ◌++◌,
}
use ii_go.Dict
use ii_go.Msg.Tags.{new_tags, get_or_empty}
use ii_go.Db.State.Files.{append_file, text_of}
use ii_go.Users.{User, no_user, is_username, is_password, make_secret, user_line, get_id}
use ii_go.Users.Policy.{Udb}

pub data UserError : Type 0 where
  user_exists wrong_username bad_password wrong_email maximum_reached no_such_user not_renamed :
      UserError

user_or_empty : Option User → User
user_or_empty none = no_user
user_or_empty (some u) = u

abbrev pub has_name : Option User → Bool
has_name none = false
has_name (some u) = true

id_or_none : Option User → ℤ
id_or_none none = negsuc 0
id_or_none (some u) = u.id

-- The greatest id, at least 0.
abbrev pub greater_id : ℤ → ℕ → ℕ
greater_id (pos n) id = if ltb id n then n else id
greater_id (negsuc n) id = id

unfoldable pub max_id : List (Bytes × User) → ℕ → ℕ
max_id [] id = id
max_id ((n, u) ∷ names) id = max_id names (greater_id u.id id)

-- `id++` on an int32
unfoldable pub next_id : ℕ → ℤ
next_id n = if n + 1 == 2 ^ 31 then neg (pos (2 ^ 31)) else pos (n + 1)

-- The lines that Edit writes: of the listed users, all but those to be removed.
unfoldable pub kept_lines : List (Bytes × User) → List Bytes → List Bytes
unfolding user_or_empty
kept_lines names [] = []
kept_lines names (name ∷ list) =
    let rest = kept_lines names list in
    let u = user_or_empty (Dict.get names name) in
    if str_eq (get_or_empty u.tags (codes "status")) (codes "remove")
    then rest
    else user_line (record u { name = name }) ∷ rest

module _ {Regex : Type 0} where
  -- The user of a name that a map gave: `v := db.Names[name]`.
  unfoldable pub named_user : Udb Regex → Option Bytes → Option User
  unfolding user_or_empty
  named_user db none = none
  named_user db (some name) = some (user_or_empty (Dict.get db.names name))

  -- Secret
  unfoldable pub secret_of : Udb Regex → Bytes → Bytes
  secret_of db name = elim (Dict.get db.names name) [ none ↦ [] | some u ↦ u.secret ]

  -- Auth
  unfoldable pub auth : (Bytes → Bytes) → Udb Regex → Bytes → Bytes → Bool
  auth sha256 db name passwd = elim (Dict.get db.names name) [
    | none ↦ false
    | some u ↦ str_eq u.secret (make_secret sha256 (name ++ passwd))
  ]

  -- Access
  unfoldable pub has_secret : Udb Regex → Bytes → Bool
  has_secret db secret = elim (Dict.get db.secrets secret) [ none ↦ false | some n ↦ true ]

  -- Name
  unfoldable pub name_of : Udb Regex → Bytes → Bytes
  name_of db secret = elim (Dict.get db.secrets secret) [ none ↦ [] | some n ↦ n ]

  -- UserInfo, UserInfoId and UserInfoName
  unfoldable pub user_info : Udb Regex → Bytes → Option User
  user_info db secret = named_user db (Dict.get db.secrets secret)

  unfoldable pub user_info_id : Udb Regex → ℤ → Option User
  user_info_id db id = named_user db (get_id db.by_id id)

  unfoldable pub user_info_name : Udb Regex → Bytes → Option User
  user_info_name db name = Dict.get db.names name

  -- Id
  unfoldable pub id_of : Udb Regex → Bytes → ℤ
  unfolding id_or_none
  id_of db secret = elim (Dict.get db.secrets secret) [
    | none ↦ negsuc 0
    | some name ↦ id_or_none (Dict.get db.names name)
  ]

  module _ (sha256 : Bytes → Bytes) (is_mail : Bytes → Bool) where
    unfoldable pub new_user : Udb Regex → Bytes → Bytes → Bytes → Bytes → User
    new_user db name mail passwd info = record {
      id = next_id (max_id db.names 0);
      name = name;
      mail = mail;
      secret = make_secret sha256 (name ++ passwd);
      tags = new_tags info;
    }

    -- Add; `is_mail` is the test by emailRegex. The maps are not touched: the new line is read by the
    -- next LoadUsers.
    unfoldable pub add_account :
        Udb Regex → Bytes → Bytes → Bytes → Bytes → Option UserError × Udb Regex
    add_account db name mail passwd info =
        if has_name (Dict.get db.names name)
        then (some user_exists, db)
        else if not (is_username name)
        then (some wrong_username, db)
        else if not (is_password passwd)
        then (some bad_password, db)
        else if not (is_mail mail)
        then (some wrong_email, db)
        else if db.locked
        then (some maximum_reached, db)
        else (
          none,
          record db {
            list = db.list ++ name ∷ [];
            file = append_file db.file (user_line (new_user db name mail passwd info));
          },
        )

  -- The rename fails if no line was written, since the temporary file is not there then.
  unfoldable pub renamed : Udb Regex → List Bytes → Option UserError × Udb Regex
  renamed db [] = (some not_renamed, db)
  renamed db (l ∷ ls) = (none, record db { file = some (text_of (l ∷ ls)); file_size = 0 })

  -- Edit
  unfoldable pub edit_account : Udb Regex → User → Option UserError × Udb Regex
  edit_account db u =
      if has_name (Dict.get db.names u.name)
      then (let names = Dict.put db.names u.name u in
          renamed (record db { names = names }) (kept_lines names db.list))
      else (some no_such_user, db)
