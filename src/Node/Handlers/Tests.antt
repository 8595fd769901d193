-- ===== src/Node/Handlers/Tests.antt =====
-- The theorems on the handlers at concrete inputs.
use ii_go.Base.{All, Bytes, codes, ℤ, pos, ok, ◌≡◌, refl, not, Option, none, List, [], ◌∷◌}
use ii_go.Msg.Valid.{is_private}
use ii_go.Msg.Tests.{no_digest, sample}
use ii_go.Db.State.Files.{text_of}
use ii_go.Db.Tests.{stored, stored-IsSynced}
use ii_go.Db.Log.Keeps.{Synced}
use ii_go.Strings.{split}
use ii_go.Echoes.{no_areas}
use ii_go.Node.Tests.{literal, says, root, one_user, same_users, stored_name}
use ii_go.Node.Handlers.{text, path_args, u_m, get_ue, point_get}
use ii_go.Node.Handlers.Bundles.{seen_lines, u_m-IsSynced, mail, point_get-mail}
use ii_go.Node.Handlers.Lists.{IsListed, get_ue-IsListed}

abbrev both_ids : Bytes
both_ids = codes "/u/m/12345678901234567890/gone"

u_m-IsSynced_example :
    (t : Bytes) × ((u_m no_digest both_ids stored).0 ≡ ok t)
    × Synced (sample ∷ []) (codes "node") (u_m no_digest both_ids stored).1
    × (t
        ≡ text_of (
            seen_lines no_digest
              (sample ∷ [])
              (codes "node")
              (λ m. not (is_private m.echo))
              (path_args 5 both_ids)))
u_m-IsSynced_example =
    u_m-IsSynced no_digest (sample ∷ []) (codes "node") both_ids stored
      (stored-IsSynced, stored_name)

abbrev no_range : Bytes → Option (ℤ × ℤ)
no_range s = none

abbrev mail_path : Bytes
mail_path = codes "/u/point/key/u/m/12345678901234567890"

mail_args : path_args 9 mail_path ≡ codes "key" ∷ codes "u" ∷ codes "m" ∷ sample.msg_id ∷ []
unfolding split
mail_args = refl

point_get-mail_example :
    ((point_get no_digest no_range (pos 7) says literal no_areas mail_path one_user stored).0.0
      ≡ ok (
          text (
            mail no_digest
              (sample ∷ [])
              (codes "node")
              one_user
              (codes "key")
              (sample.msg_id ∷ []))))
    × Synced
        (sample ∷ [])
        (codes "node")
        (point_get no_digest no_range (pos 7) says literal no_areas mail_path one_user stored).0.1
point_get-mail_example =
    point_get-mail no_digest (sample ∷ []) (codes "node") no_range (pos 7) says literal no_areas
      (codes "key") (sample.msg_id ∷ []) mail_path one_user one_user stored mail_args same_users
      (stored-IsSynced, stored_name)

abbrev areas : List Bytes
areas = codes "std.test" ∷ codes "0:0" ∷ []

get_ue-IsListed_example :
    (l : List Bytes) × ((get_ue no_digest no_range root areas stored).0 ≡ ok (text_of l))
    × Synced (sample ∷ []) (codes "node") (get_ue no_digest no_range root areas stored).1
    × All (IsListed no_digest (sample ∷ []) (codes "node") (codes "root")) l
get_ue-IsListed_example =
    get_ue-IsListed no_digest (sample ∷ []) (codes "node") no_range root areas stored
      (stored-IsSynced, stored_name)
