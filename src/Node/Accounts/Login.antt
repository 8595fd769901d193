-- ===== src/Node/Accounts/Login.antt =====
-- ii-node/web.go: who registers can log in.
use ii_go.Base.{
  Option-cases, length, All, Bytes, str_eq, str_eq_iff, ok, ◌≤◌, ◌≡◌, refl, inl, inr, Bool, true,
  Option, none, some, List, [], ◌++◌, map, arith,
}
use ii_go.Dict
use ii_go.Db.State.Files.{contents, text_of}
use ii_go.Users.{User, make_secret, user_line}
use ii_go.Users.Policy.{Udb}
use ii_go.Users.Load.{load_users}
use ii_go.Users.Account.{secret_of, auth, new_user, add_account}
use ii_go.Users.Laws.{IsLine, auth-add_account}
use ii_go.Node.Accounts.{
  Registration, to_login, next_page, info_of, register_new, register_loaded, www_register,
  www_login,
}

module _ {Regex : Type 0} (compile : Bytes → Option Regex) (matches : Regex → Bytes → Bool)
    (sha256 : Bytes → Bytes) (is_mail : Bytes → Bool) (ip country : Bytes) where
  register_new-add :
      (db : Udb Regex) (form : Registration)
      → (register_new compile matches sha256 is_mail ip country db form).0 ≡ ok to_login
      → ((add_account sha256 is_mail db form.username form.email form.password
            (info_of compile matches sha256 is_mail ip country db form)).0
          ≡ none)
        × ((register_new compile matches sha256 is_mail ip country db form).1
            ≡ (add_account sha256 is_mail db form.username form.email form.password
                (info_of compile matches sha256 is_mail ip country db form)).1)
  unfolding register_new next_page
  register_new-add db form h = ground arith

  www_register-new :
      (old db : Udb Regex) (form : Registration)
      → load_users compile old ≡ (ok tt, db)
      → form.auth_key ≡ []
      → www_register compile matches sha256 is_mail ip country form old
        ≡ register_new compile matches sha256 is_mail ip country db form
  unfolding www_register register_loaded str_eq
  www_register-new old db form l blank = rw (l, blank) refl

  www_login-auth :
      (user password : Bytes) (db : Udb Regex)
      → auth sha256 db user password ≡ true
      → www_login compile matches sha256 is_mail ip country user password db
        ≡ some (make_secret sha256 (user ++ password))
  unfolding www_login auth secret_of
  www_login-auth user password db h = elim (Option-cases (Dict.get db.names user)) [
    | inl e ↦ ground arith
    | inr (u, e) ↦ ground (arith, str_eq_iff u.secret (make_secret sha256 (user ++ password)))
  ]

  -- Whom www_register sends to the page of login after a form without a secret, where the users file is loaded,
  -- holds lines that are well-formed, as is the new one, and was last seen at its size or a smaller one: www_login lets them in with
  -- the name and the password of the form after the next LoadUsers.
  pub www_login-www_register :
      (us : List User) (old db : Udb Regex) (form : Registration)
      → load_users compile old ≡ (ok tt, db)
      → contents db.file ≡ text_of (map user_line us)
      → All IsLine us
      → db.file_size ≤ length (contents db.file)
      → IsLine (
          new_user sha256 is_mail db form.username form.email form.password
            (info_of compile matches sha256 is_mail ip country db form))
      → form.auth_key ≡ []
      → (www_register compile matches sha256 is_mail ip country form old).0 ≡ ok to_login
      → www_login compile matches sha256 is_mail ip country form.username form.password
          (load_users compile (www_register compile matches sha256 is_mail ip country form old).1).1
        ≡ some (make_secret sha256 (form.username ++ form.password))
  www_login-www_register us old db form l f w seen line blank h =
      let same = www_register-new old db form l blank in
      let (added, left) = register_new-add db form (rw same at h) in
      rw (same, left)
        (www_login-auth form.username form.password _ (
          auth-add_account compile sha256 is_mail us db form.username form.email form.password
            (info_of compile matches sha256 is_mail ip country db form) f w seen line added))
