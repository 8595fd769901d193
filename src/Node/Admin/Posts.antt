-- ===== src/Node/Admin/Posts.antt =====
-- What a user may post after a command of the superuser.
use ii_go.Base.{Bytes, codes, str_eq, ok, ◌≡◌, ◌∙◌, ◌⊎◌, inl, inr, true, false, some, arith}
use ii_go.Msg.Tags.{Tags, get, get_or_empty, add_or_keep}
use ii_go.Msg.Tags.Laws.{get-add_or_keep}
use ii_go.Msg.Encode.{Msg}
use ii_go.Db.State.{Db}
use ii_go.Users.{User}
use ii_go.Node.Points.{is_watched, point_policy}
use ii_go.Node.Admin.{command}

get_or_empty_lem : (t : Tags) (n v : Bytes) → get t n ≡ some v → get_or_empty t n ≡ v
unfolding get_or_empty
get_or_empty_lem t n v e = rw (get_or_empty, e)

blocked-status :
    (t : Tags) → get_or_empty (command (codes "block") t) (codes "status") ≡ codes "blocked"
unfolding command str_eq
blocked-status t =
    let status =
      get-add_or_keep t (codes "status") (codes "blocked") (codes "status") (omega arith)
        (omega arith) in
    let later =
      get-add_or_keep (add_or_keep t (codes "status/blocked")) (codes "limit") (codes "0")
        (codes "status") (omega arith) (omega arith) in
    get_or_empty_lem (command (codes "block") t) (codes "status") (codes "blocked") (later ∙ status)

moderated-status :
    (t : Tags) → get_or_empty (command (codes "moderate") t) (codes "status") ≡ codes "moderate"
unfolding command str_eq
moderated-status t =
    get_or_empty_lem (command (codes "moderate") t) (codes "status") (codes "moderate") (
      get-add_or_keep (add_or_keep t (codes "limit/3")) (codes "status") (codes "moderate")
        (codes "status") (omega arith) (omega arith))

command-is_watched :
    (name : Bytes) (u : User)
    → (name ≡ codes "block") ⊎ (name ≡ codes "moderate")
    → is_watched (record u { tags = command name u.tags }) ≡ false
unfolding str_eq
command-is_watched name u (inl e) = rw (e, blocked-status u.tags)
command-is_watched name u (inr e) = rw (e, moderated-status u.tags)

-- After "block" and after "moderate" PointPolicy lets through every message of the user, whatever it let
-- through before: it looks for other values of the status than those that the commands set.
pub point_policy-command :
    (sha256 : Bytes → Bytes) (name : Bytes) (u : User) (m : Msg) (db : Db)
    → (name ≡ codes "block") ⊎ (name ≡ codes "moderate")
    → point_policy sha256 (record u { tags = command name u.tags }) m db ≡ (ok true, db)
unfolding point_policy
point_policy-command sha256 name u m db h = rw (command-is_watched name u h)
