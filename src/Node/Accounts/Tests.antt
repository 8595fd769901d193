-- ===== src/Node/Accounts/Tests.antt =====
-- Runs of the registration, and its theorem at a concrete input.
use ii_go.Base.{length, Bytes, codes, str_eq, ok, ◌≤◌, ◌≡◌, refl, Bool, some, [], ◌∷◌, ◌++◌, arith}
use ii_go.Base64
use ii_go.Dict
use ii_go.Strings.{split, join, contains_any, has_prefix, has_suffix, trim_suffix, trim}
use ii_go.Msg.Tags.{new_tags, get, get_or_empty, to_string}
use ii_go.Msg.Tests.{no_digest}
use ii_go.Db.State.Files.{contents, text_of}
use ii_go.Users.{is_username, is_password, make_secret, user_line}
use ii_go.Users.Policy.{Udb, first_status, user_status}
use ii_go.Users.Load.{load_users}
use ii_go.Users.Account.{max_id, next_id, new_user, add_account}
use ii_go.Users.Laws.{IsLine}
use ii_go.Users.Tests.{literal, any_mail, old_user, old_user-IsLine, users_file}
use ii_go.Node.Accounts.{
  Registration, to_login, next_page, info_of, register_new, register_loaded, www_register,
  www_login,
}
use ii_go.Node.Accounts.Login.{www_login-www_register}
use ii_go.Decimal.{print_int}

abbrev form : Registration
form = record {
  auth_key = [];
  username = codes "peter";
  password = codes "pw";
  email = codes "p@x";
}

-- The users file, read to its end.
abbrev loaded_file : Udb Bytes
loaded_file = record users_file { file_size = length (contents users_file.file) }

abbrev finds : Bytes → Bytes → Bool
finds r s = str_eq r s

same_file : load_users literal loaded_file ≡ (ok tt, loaded_file)
unfolding load_users text_of user_line join print_int to_string
same_file = refl

peter-IsLine : IsLine (
    new_user no_digest any_mail loaded_file
      (codes "peter")
      (codes "p@x")
      (codes "pw")
      (info_of literal finds no_digest any_mail (codes "1.2.3.4") (codes "us") loaded_file form))
unfolding new_user next_id max_id to_string new_tags trim make_secret Base64.encode str_eq info_of
    user_status first_status split trim_suffix Dict.get Dict.put
peter-IsLine = record {
  id_range = omega arith;
  name_column = (omega arith, omega arith);
  mail_column = (omega arith, omega arith);
  secret_column = (omega arith, omega arith);
  tags_column = (omega arith, omega arith);
}

registered :
    (www_register literal finds no_digest any_mail
      (codes "1.2.3.4")
      (codes "us")
      form
      loaded_file).0
    ≡ ok to_login
unfolding www_register register_loaded register_new next_page info_of user_status first_status
    add_account is_username is_password contains_any has_prefix has_suffix Dict.get Dict.put
    get_or_empty get new_tags trim split str_eq
registered = rw same_file refl

seen_size : loaded_file.file_size ≤ length (contents loaded_file.file)
seen_size = omega arith

www_login-www_register_example :
    www_login literal finds no_digest any_mail
      (codes "1.2.3.4")
      (codes "us")
      (codes "peter")
      (codes "pw")
      (load_users literal
        (www_register literal finds no_digest any_mail
          (codes "1.2.3.4")
          (codes "us")
          form
          loaded_file).1).1
    ≡ some (make_secret no_digest (codes "peter" ++ codes "pw"))
www_login-www_register_example =
    www_login-www_register literal finds no_digest any_mail (codes "1.2.3.4") (codes "us")
      (old_user ∷ []) loaded_file loaded_file form same_file refl (old_user-IsLine, tt) seen_size
      peter-IsLine refl registered
