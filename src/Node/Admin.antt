-- ===== src/Node/Admin.antt =====
-- ii-node/web.go, _handleWWW: the commands on users that the superuser gives under points/.
pub mod Posts
mod Tests
use ii_go.Base.{
  if◌then◌else◌, Bytes, codes, str_eq, Result, ok, err, not, Option, none, some, List, [], ◌∷◌,
}
use ii_go.Msg.Tags.{Tags, add_or_keep, del}
use ii_go.Db.State.{Panic}
use ii_go.Users.{User}
use ii_go.Users.Policy.{Udb}
use ii_go.Users.Load.{load_users}
use ii_go.Users.Account.{user_info_name, edit_account}
use ii_go.Node.Web.{is_root}

-- The page that follows.
pub data AdminPage : Type 0 where
  access_denied points : AdminPage

-- What a command does to the tags of the user.
unfoldable pub command : Bytes → Tags → Tags
command name t =
    if str_eq name (codes "moderate")
    then add_or_keep (add_or_keep t (codes "limit/3")) (codes "status/moderate")
    else if str_eq name (codes "unblock")
    then (del (add_or_keep t (codes "status/verified")) (codes "limit")).0
    else if str_eq name (codes "block")
    then add_or_keep (add_or_keep t (codes "status/blocked")) (codes "limit/0")
    else if str_eq name (codes "remove")
    then add_or_keep t (codes "status/remove")
    else if str_eq name (codes "approve")
    then add_or_keep ((del t (codes "limit")).0) (codes "status/verified")
    else t

module _ {Regex : Type 0} (compile : Bytes → Option Regex) where
  after_load : Result Panic (Unit {0}) × Udb Regex → Result Panic AdminPage × Udb Regex
  after_load (ok t, udb) = (ok points, udb)
  after_load (err p, udb) = (err p, udb)

  -- The answer of Edit is not looked at.
  unfoldable pub commanded : Bytes → Option User → Udb Regex → Result Panic AdminPage × Udb Regex
  unfolding after_load
  commanded name none udb = (ok points, udb)
  commanded name (some u) udb =
      after_load
        (load_users compile ((edit_account udb (record u { tags = command name u.tags })).1))

  -- The branch "points" of _handleWWW.
  unfoldable pub www_admin : User → List Bytes → Udb Regex → Result Panic AdminPage × Udb Regex
  www_admin u args udb = if not (is_root u) then (ok access_denied, udb) else elim args [
    | [] ↦ (ok points, udb)
    | _ ∷ [] ↦ (ok points, udb)
    | _ ∷ _ ∷ [] ↦ (ok points, udb)
    | _ ∷ name ∷ user ∷ _ ↦ commanded name (user_info_name udb user) udb
  ]
