-- ===== src/Users/Load.antt =====
-- ii/db.go: LoadUsers.
use ii_go.Base.{
  leb, ◌==◌, if◌then◌else◌, Bytes, codes, str_eq, ℤ, pos, negsuc, Result, ok, err, ℕ, ◌+◌, Bool,
  true, false, ◌||◌, Option, none, some, List, [], ◌∷◌, ◌++◌,
}
use ii_go.Strings.{split, has_prefix}
use ii_go.Decimal.{scan_int32}
use ii_go.Dict
use ii_go.Msg.Tags.{new_tags, get_or_empty}
use ii_go.Db.State.{Panic, index_out_of_range}
use ii_go.Db.State.Files.{filesize, contents, lines}
use ii_go.Users.{User, put_id}
use ii_go.Users.Policy.{Udb, load_policy}

abbrev pub user_of : ℤ → Bytes → Bytes → Bytes → Bytes → User
user_of id name mail secret tags = record {
  id = id;
  name = name;
  mail = mail;
  secret = secret;
  tags = new_tags tags;
}

-- The columns of a line: a line of fewer than four, or with a wrong id, is skipped (`none`); one of
-- four has no fifth column to read.
with_id : Bytes → Bytes → Bytes → Bytes → Option ℤ → Option User
with_id name mail secret tags none = none
with_id name mail secret tags (some id) = some (user_of id name mail secret tags)

four_columns : Option ℤ → Result Panic (Option User)
four_columns none = ok none
four_columns (some id) = err index_out_of_range

unfoldable pub user_columns : List Bytes → Result Panic (Option User)
unfolding with_id four_columns
user_columns (id ∷ name ∷ mail ∷ secret ∷ tags ∷ rest) =
    ok (with_id name mail secret tags (scan_int32 id))
user_columns (id ∷ name ∷ mail ∷ secret ∷ []) = four_columns (scan_int32 id)
user_columns _ = ok none

-- `status, _ := u.Tags.Get("status"); status == "new"`
abbrev pub is_new : User → Bool
is_new u = str_eq (get_or_empty u.tags (codes "status")) (codes "new")

abbrev pub limit_reached : ℤ → ℕ → Bool
limit_reached (pos n) new_users = leb n new_users
limit_reached (negsuc n) new_users = false

module _ {Regex : Type 0} where
  unfoldable pub add_user : User → Udb Regex → Udb Regex
  add_user u db =
      let new_users = if is_new u then db.new_users + 1 else db.new_users in
      record db {
        new_users = new_users;
        locked = limit_reached db.new_users_max new_users || db.locked;
        by_id = put_id db.by_id u.id u.name;
        names = Dict.put db.names u.name u;
        secrets = Dict.put db.secrets u.secret u.name;
        list = db.list ++ u.name ∷ [];
      }

  unfoldable pub add_parsed : Option User → Udb Regex → Udb Regex
  add_parsed none db = db
  add_parsed (some u) db = add_user u db

  -- The callback of LoadUsers over the lines of the file.
  unfoldable pub load_lines : List Bytes → Udb Regex → Result Panic (Unit {0}) × Udb Regex
  load_lines [] db = (ok tt, db)
  load_lines (line ∷ ls) db =
      if has_prefix line (codes "!lock")
      then load_lines ls (record db { locked = true })
      else elim (user_columns (split line b':')) [
        | ok u ↦ load_lines ls (add_parsed u db)
        | err p ↦ (err p, db)
      ]

  unfoldable pub loaded_size :
      ℕ → Result Panic (Unit {0}) × Udb Regex → Result Panic (Unit {0}) × Udb Regex
  loaded_size size (ok t, db) = (ok t, record db { file_size = size })
  loaded_size size (err p, db) = (err p, db)

  module _ (compile : Bytes → Option Regex) where
    -- The database as it is when the lines are read.
    unfoldable pub cleared : Udb Regex → Udb Regex
    cleared db =
        record (load_policy compile (record db {
          names = [];
          secrets = [];
          by_id = [];
          list = [];
          locked = false;
          new_users_max = negsuc 0;
        })) { new_users = 0 }

    -- LoadUsers: a file of the size last seen is not read again.
    unfoldable pub load_users : Udb Regex → Result Panic (Unit {0}) × Udb Regex
    load_users db =
        let size = filesize db.file in
        if db.file_size == size
        then (ok tt, db)
        else loaded_size size (load_lines (lines (contents db.file)) (cleared db))
