-- ===== src/Users/Laws.antt =====
-- The users' file is read back as the users that were written, and who registers can log in.
mod Lines
unfoldable pub use Lines.{last_user}
pub use Lines.{IsLine, reread}
use ii_go.Users.Laws.Lines.{
  IsLine, reread, last_user, user_columns-user_line, unlocked_line, user_lines-Lacks, or_before,
  or_before_later, or_before-none, last_user-append, Below, max_id-Below,
}
use mathlib.Core.Option
use mathlib.Core.List.{map-append}
use ii_go.Base.{
  ◌==◌, if◌then◌else◌, Bool-cases, length, All, All-append, Bytes, str_eq, str_eq_refl, pos, negsuc,
  ok, ◌+◌, ◌^◌, ◌≤◌, ◌<◌, ◌≡◌, refl, sym, ap, ◌∙◌, ◌≢◌, inl, inr, Bool, true, false, Option, none,
  some, List, [], ◌∷◌, ◌++◌, map, arith,
}
use ii_go.Strings.{split}
use ii_go.Dict
use ii_go.Users.{User, make_secret, user_line}
use ii_go.Users.Policy.{Udb, policy_columns, policy_lines, load_policy}
use ii_go.Users.Load.{add_user, add_parsed, load_lines, loaded_size, cleared, load_users}
use ii_go.Db.State.Files.{
  contents, append_file, lines, text_of, lines-text_of, append_file-contents, length-append_file,
}
use ii_go.Users.Account.{max_id, next_id, auth, new_user, add_account}

module _ {Regex : Type 0} where
  add_users : List User → Udb Regex → Udb Regex
  add_users [] db = db
  add_users (u ∷ us) db = add_users us (add_user (reread u) db)

  load_lines-user_line :
      (us : List User) (db : Udb Regex)
      → All IsLine us
      → load_lines (map user_line us) db ≡ (ok tt, add_users us db)
  unfolding load_lines add_users add_parsed
  load_lines-user_line [] db w = refl
  load_lines-user_line (u ∷ us) db w =
      rw (unlocked_line u, user_columns-user_line u w.0)
        (load_lines-user_line us (add_user (reread u) db) w.1)

  names-add_user :
      (u : User) (db : Udb Regex) (name : Bytes)
      → Dict.get (add_user (reread u) db).names name
        ≡ (if str_eq u.name name then some (reread u) else Dict.get db.names name)
  unfolding add_user
  names-add_user u db name = Dict.get-put db.names u.name name (reread u)

  names-add_users :
      (us : List User) (db : Udb Regex) (name : Bytes)
      → Dict.get (add_users us db).names name
        ≡ or_before (last_user name us) (Dict.get db.names name)
  unfolding add_users last_user
  names-add_users [] db name = unfold or_before in refl
  names-add_users (u ∷ us) db name =
      names-add_users us (add_user (reread u) db) name
      ∙ ap (or_before (last_user name us)) (names-add_user u db name)
      ∙ or_before_later (last_user name us) (str_eq u.name name) u (Dict.get db.names name)

  module _ (sha256 : Bytes → Bytes) (is_mail : Bytes → Bool) where
    -- The id of a new user is one more than a number that no id in memory exceeds, as long as that
    -- number is not the greatest int32.
    pub new_user-Below :
        (db : Udb Regex) (name mail passwd info : Bytes)
        → max_id db.names 0 + 1 < 2 ^ 31
        → ((new_user sha256 is_mail db name mail passwd info).id ≡ pos (max_id db.names 0 + 1))
          × All (λ (r : Bytes × User). Below r.1.id (max_id db.names 0)) db.names
    unfolding new_user next_id
    new_user-Below db name mail passwd info h = (ground arith, (max_id-Below db.names 0).1)

  module _ (compile : Bytes → Option Regex) where
    names-policy_columns :
        (line : Bytes) (parts : List Bytes) (db : Udb Regex)
        → (policy_columns compile line parts db).names ≡ db.names
    unfolding policy_columns
    names-policy_columns line [] db = refl
    names-policy_columns line (a ∷ []) db = refl
    names-policy_columns line (a ∷ b ∷ []) db = refl
    names-policy_columns line (a ∷ b ∷ c ∷ []) db = refl
    names-policy_columns line (a ∷ b ∷ c ∷ d ∷ rest) db = refl

    names-policy_lines :
        (ls : List Bytes) (db : Udb Regex) → (policy_lines compile ls db).names ≡ db.names
    unfolding policy_lines
    names-policy_lines [] db = refl
    names-policy_lines (l ∷ ls) db =
        names-policy_lines ls (policy_columns compile l (split l b':') db)
        ∙ names-policy_columns l (split l b':') db

    names-load_policy : (db : Udb Regex) → (load_policy compile db).names ≡ db.names
    unfolding load_policy
    names-load_policy db =
        let size = length (contents db.policy_file) in
        elim (Bool-cases (db.policy_size == size)) [
          | inl same ↦ rw same
          | inr other ↦ rw other (
              names-policy_lines (lines (contents db.policy_file))
                (record db { policy_size = size; policy = [] }))
        ]

    names-cleared :
        (db : Udb Regex) (name : Bytes) → Dict.get (cleared compile db).names name ≡ none
    unfolding cleared
    names-cleared db name =
        rw
          (names-load_policy (record db {
            names = [];
            secrets = [];
            by_id = [];
            list = [];
            locked = false;
            new_users_max = negsuc 0;
          }))
          (unfold Dict.get in refl)

    -- LoadUsers of a file of well-formed user lines, whose size is not the one last seen, succeeds, and
    -- a name then gives its last line, with the tags read back from their text, or no user.
    pub load_users-user_line :
        (us : List User) (db : Udb Regex) (name : Bytes)
        → contents db.file ≡ text_of (map user_line us)
        → All IsLine us
        → db.file_size ≢ length (contents db.file)
        → ((load_users compile db).0 ≡ ok tt)
          × (Dict.get (load_users compile db).1.names name ≡ Option.map reread (last_user name us))
    unfolding load_users loaded_size
    load_users-user_line us db name f w stale =
        let other : (db.file_size == length (contents db.file)) ≡ false = ground arith in
        rw
          (
            other,
            f,
            lines-text_of (map user_line us) (user_lines-Lacks us w),
            load_lines-user_line us (cleared compile db) w,
          )
          (
            refl,
            names-add_users us (cleared compile db) name
                ∙ rw (names-cleared db name) (or_before-none (last_user name us)),
          )

    module _ (sha256 : Bytes → Bytes) (is_mail : Bytes → Bool) where
      added :
          (db : Udb Regex) (name mail passwd info : Bytes)
          → (add_account sha256 is_mail db name mail passwd info).0 ≡ none
          → ((add_account sha256 is_mail db name mail passwd info).1.file
              ≡ append_file db.file (user_line (new_user sha256 is_mail db name mail passwd info)))
            × ((add_account sha256 is_mail db name mail passwd info).1.file_size ≡ db.file_size)
      unfolding add_account
      added db name mail passwd info h = ground arith

      auth-found :
          (db : Udb Regex) (name passwd : Bytes) {u : User}
          → Dict.get db.names name ≡ some u
          → u.secret ≡ make_secret sha256 (name ++ passwd)
          → auth sha256 db name passwd ≡ true
      unfolding auth
      auth-found db name passwd h e =
          rw (auth, h, e) (str_eq_refl (make_secret sha256 (name ++ passwd)))

      named_new :
          (db : Udb Regex) (name mail passwd info : Bytes)
          → str_eq (new_user sha256 is_mail db name mail passwd info).name name ≡ true
      unfolding new_user
      named_new db name mail passwd info = str_eq_refl name

      secret_new :
          (db : Udb Regex) (name mail passwd info : Bytes)
          → (new_user sha256 is_mail db name mail passwd info).secret
            ≡ make_secret sha256 (name ++ passwd)
      unfolding new_user
      secret_new db name mail passwd info = refl

      -- Whom Add registers with a well-formed line in a file of such lines, last seen at its size or a
      -- smaller one, can log in with the password after the next LoadUsers.
      pub auth-add_account :
          (us : List User) (db : Udb Regex) (name mail passwd info : Bytes)
          → contents db.file ≡ text_of (map user_line us)
          → All IsLine us
          → db.file_size ≤ length (contents db.file)
          → IsLine (new_user sha256 is_mail db name mail passwd info)
          → (add_account sha256 is_mail db name mail passwd info).0 ≡ none
          → auth sha256
              (load_users compile (add_account sha256 is_mail db name mail passwd info).1).1
              name
              passwd
            ≡ true
      auth-add_account us db name mail passwd info f w seen line ok_added =
          let u = new_user sha256 is_mail db name mail passwd info in
          let db' = (add_account sha256 is_mail db name mail passwd info).1 in
          let (file, size) = added db name mail passwd info ok_added in
          let text : contents db'.file ≡ text_of (map user_line (us ++ u ∷ [])) =
            ap contents file
            ∙ append_file-contents db.file (map user_line us) (user_line u) f
            ∙ ap text_of (sym (map-append user_line us (u ∷ []))) in
          let stale : db'.file_size ≢ length (contents db'.file) = (λ same. omega (
            arith,
            length-append_file db.file (user_line u),
            ap (λ o. length (contents o)) file,
          )) in
          let all : All IsLine (us ++ u ∷ []) = All-append IsLine us (u ∷ []) w (line, tt) in
          let found = (load_users-user_line (us ++ u ∷ []) db' name text all stale).1 in
          let last = last_user-append us u name (named_new db name mail passwd info) in
          auth-found (load_users compile db').1 name passwd (found ∙ ap (Option.map reread) last)
            (secret_new db name mail passwd info)
