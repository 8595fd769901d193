-- ===== src/Node/Web/Shown.antt =====
-- ii/db.go: Get on files that hold a log, as a step of a handler.
use mathlib.Core.Option
use ii_go.Base.{Bytes, ◌≡◌, true, false, Option, List}
use ii_go.Msg.Encode.{Msg}
use ii_go.Db.State.Ends.{Ends, Ends-pure, Ends-gets, Ends-bind, Ends-imp}
use ii_go.Db.Access.{lookup_with, get_bundle_with, get_bundle, decoded, get_msg}
use ii_go.Db.Log.{latest}
use ii_go.Db.Log.Get.{shows, msg_at, get_msg-latest}
use ii_go.Db.Log.Keeps.{Synced, Current, Ends-lookup-Current}

module _ (sha256 : Bytes → Bytes) (log : List Msg) (name : Bytes) where
  -- What Get returns of the log.
  abbrev pub shown : Bytes → Option Msg
  shown id = Option.map msg_at (shows false (latest id 0 log))

  Ends-get_bundle_with :
      (id : Bytes)
      → Ends (Synced log name) (get_bundle_with sha256 id true false) (λ r. Current log name)
  unfolding get_bundle_with
  Ends-get_bundle_with id =
      Ends-bind (Synced log name) _ (λ r. Current log name) (lookup_with sha256 id false true) _
        (Ends-lookup-Current sha256 log name id false) (λ i. Ends-gets _ _ _ (λ db s. s.0))

  Ends-bundle : (id : Bytes) → Ends (Synced log name) (get_msg sha256 id) (λ o. Current log name)
  unfolding get_msg get_bundle
  Ends-bundle id =
      Ends-bind (Synced log name) (λ b. Current log name) (λ o. Current log name) _ _
        (Ends-bind (Synced log name) (λ r. Current log name) (λ o. Current log name) _ _
          (Ends-get_bundle_with id) (λ r. Ends-pure (Current log name) _ r.0 (λ db s. s)))
        (λ b. Ends-pure (Current log name) _ (decoded sha256 b) (λ db s. s))

  -- Get leaves an index in memory that is that of the log.
  pub Ends-get_msg-Current :
      (id : Bytes)
      → Ends (Synced log name) (get_msg sha256 id) (λ o db. Current log name db × (o ≡ shown id))
  Ends-get_msg-Current id = record {
    at = λ db s.
        let (o, e, kept) = (Ends-bundle id).at db s in
        (o, e, (kept, cc (e, get_msg-latest sha256 db log id s.0)));
  }

  pub Ends-get_msg :
      (id : Bytes)
      → Ends (Synced log name) (get_msg sha256 id) (λ o db. Synced log name db × (o ≡ shown id))
  Ends-get_msg id = Ends-imp (λ o db (c, e). (c.0, e)) (Ends-get_msg-Current id)
