-- ===== src/Users/Tests.antt =====
-- Runs of the users' functions, and their theorems at concrete inputs.
use mathlib.Core.Option
use ii_go.Base.{
  length, Bytes, codes, str_eq, pos, ok, ◌≡◌, refl, ◌≢◌, Bool, true, false, Option, none, some, [],
  ◌∷◌, map, arith,
}
use ii_go.Strings.{join, contains_any, has_prefix, has_suffix, trim}
use ii_go.Decimal.{print_int}
use ii_go.Base64
use ii_go.Dict
use ii_go.Msg.Tags.{no_tags, new_tags, to_string}
use ii_go.Msg.Tests.{no_digest}
use ii_go.Db.State.Files.{contents, text_of}
use ii_go.Users.{User, is_username, is_password, make_secret, user_line}
use ii_go.Users.Policy.{Udb}
use ii_go.Users.Load.{load_users}
use ii_go.Users.Account.{max_id, next_id, auth, new_user, add_account}
use ii_go.Users.Laws.{IsLine, reread, last_user, load_users-user_line, auth-add_account}

-- A stand-in for the expressions: a text is found only as the whole.
abbrev pub literal : Bytes → Option Bytes
literal s = some s

abbrev pub any_mail : Bytes → Bool
any_mail s = true

abbrev pub old_user : User
old_user = record {
  id = pos 1;
  name = codes "root";
  mail = codes "r@x";
  secret = codes "0123456789";
  tags = no_tags;
}

pub old_user-IsLine : IsLine old_user
unfolding to_string
old_user-IsLine = record {
  id_range = omega arith;
  name_column = (omega arith, omega arith);
  mail_column = (omega arith, omega arith);
  secret_column = (omega arith, omega arith);
  tags_column = (tt, tt);
}

abbrev pub users_file : Udb Bytes
users_file = record {
  file = some (text_of (map user_line (old_user ∷ [])));
  policy_file = none;
  names = [];
  by_id = [];
  secrets = [];
  list = [];
  file_size = 0;
  policy = [];
  policy_size = 0;
  new_users_max = pos 0;
  new_users = 0;
  locked = false;
}

new_user-IsLine :
    IsLine (new_user no_digest any_mail users_file (codes "peter") (codes "p@x") (codes "pw") [])
unfolding new_user next_id max_id to_string new_tags trim make_secret Base64.encode str_eq
new_user-IsLine = record {
  id_range = omega arith;
  name_column = (omega arith, omega arith);
  mail_column = (omega arith, omega arith);
  secret_column = (omega arith, omega arith);
  tags_column = (tt, tt);
}

accepted :
    (add_account no_digest any_mail users_file (codes "peter") (codes "p@x") (codes "pw") []).0
    ≡ none
unfolding add_account is_username is_password Dict.get contains_any has_prefix has_suffix
accepted = refl

stale_file : users_file.file_size ≢ length (contents users_file.file)
unfolding text_of user_line join print_int
stale_file = omega arith

auth-add_account_example :
    auth no_digest
      (load_users literal
        (add_account no_digest any_mail users_file
          (codes "peter")
          (codes "p@x")
          (codes "pw")
          []).1).1
      (codes "peter")
      (codes "pw")
    ≡ true
auth-add_account_example =
    auth-add_account literal no_digest any_mail (old_user ∷ []) users_file (codes "peter")
      (codes "p@x") (codes "pw") [] refl (old_user-IsLine, tt) (omega arith) new_user-IsLine
      accepted

load_users-user_line_example :
    ((load_users literal users_file).0 ≡ ok tt)
    × (Dict.get (load_users literal users_file).1.names (codes "root")
        ≡ Option.map reread (last_user (codes "root") (old_user ∷ [])))
load_users-user_line_example =
    load_users-user_line literal (old_user ∷ []) users_file (codes "root") refl
      (old_user-IsLine, tt) stale_file
