-- ===== src/Node/Accounts.antt =====
-- ii-node/web.go: www_register and www_login on the values of a form that was parsed. The address of
-- the client and the country that whois gives for it are parameters.
pub mod Login
mod Tests
use ii_go.Base.{
  if◌then◌else◌, Bytes, codes, str_eq, pos, same_int, Result, ok, err, Bool, false, Option, none,
  some, [], ◌∷◌, ◌++◌,
}
use ii_go.Dict
use ii_go.Msg.Tags.{new_tags, get_or_empty}
use ii_go.Db.State.{Panic}
use ii_go.Users.{User, make_secret}
use ii_go.Users.Policy.{Udb, atoi, user_status}
use ii_go.Users.Load.{load_users}
use ii_go.Users.Account.{UserError, secret_of, auth, user_info, add_account, edit_account}

pub record Registration : Type 0 where
  pub auth_key : Bytes
  pub username : Bytes
  pub password : Bytes
  pub email : Bytes

-- What follows: the page of login, the page for those who must wait, or an error. To a honeypot the page for
-- those who must wait is shown, too.
pub data Outcome : Type 0 where
  to_login to_wait honeypot unknown_key : Outcome
  refused : UserError → Outcome

abbrev pub is_zero_limit : Bytes → Bool
is_zero_limit t = if str_eq t [] then false else same_int (atoi t) (pos 0)

unfoldable pub next_page : Bytes → Option UserError → Outcome
next_page info (some e) = refused e
next_page info none =
    if is_zero_limit (get_or_empty (new_tags info) (codes "limit")) then to_wait else to_login

unfoldable pub edited_page : Option UserError → Outcome
edited_page none = to_login
edited_page (some e) = refused e

module _ {Regex : Type 0} (compile : Bytes → Option Regex) (matches : Regex → Bytes → Bool)
    (sha256 : Bytes → Bytes) (is_mail : Bytes → Bool) (ip country : Bytes) where
  unfoldable pub info_of : Udb Regex → Registration → Bytes
  info_of db form =
      user_status matches db form.username form.email country
      ++ codes "/info/"
      ++ ip
      ++ b',' ∷ country

  unfoldable pub register_new : Udb Regex → Registration → Result Panic Outcome × Udb Regex
  register_new db form =
      if str_eq (user_status matches db form.username form.email country) (codes "honeypot")
      then (ok honeypot, db)
      else (let (e, db') =
            add_account sha256 is_mail db form.username form.email form.password
              (info_of db form) in
          (ok (next_page (info_of db form) e), db'))

  unfoldable pub change_password :
      Udb Regex → Registration → Option User → Result Panic Outcome × Udb Regex
  change_password db form none = (ok unknown_key, db)
  change_password db form (some u) =
      let (e, db') =
        edit_account db (record u { secret = make_secret sha256 (u.name ++ form.password) }) in
      (ok (edited_page e), db')

  unfoldable pub register_loaded :
      Registration → Result Panic (Unit {0}) × Udb Regex → Result Panic Outcome × Udb Regex
  register_loaded form (err p, db) = (err p, db)
  register_loaded form (ok t, db) =
      if str_eq form.auth_key []
      then register_new db form
      else change_password db form (user_info db form.auth_key)

  -- www_register on POST
  unfoldable pub www_register : Registration → Udb Regex → Result Panic Outcome × Udb Regex
  www_register form db = register_loaded form (load_users compile db)

  -- www_login on POST: the value of the cookie.
  unfoldable pub www_login : Bytes → Bytes → Udb Regex → Option Bytes
  www_login user password db =
      if auth sha256 db user password then some (secret_of db user) else none
