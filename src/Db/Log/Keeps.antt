-- ===== src/Db/Log/Keeps.antt =====
-- Loading and looking up leave the log of the files and the name of the database as they are, and end
-- without a fault.
use ii_go.Base.{Bytes, ◌≡◌, refl, ap, ◌∙◌, Bool, true, false, Option, none, List, [], ◌∷◌}
use ii_go.Msg.Encode.{Msg}
use ii_go.Db.State.{Db}
use ii_go.Db.State.Ends.{Ends, Ends-pure, Ends-bind, Ends-weaken, Ends-imp}
use ii_go.Db.Load.{load_index}
use ii_go.Db.Access.{lookup_with, lookup_ids}
use ii_go.Db.Log.{IsSynced, latest}
use ii_go.Db.Log.Get.{columns, shows, entry_at, lookup_with_lem, lookup_with-latest}
use mathlib.Core.Option
use ii_go.Db.Log.Names.{name-load_index}
use ii_go.Db.Log.Load.{IsCurrent, IsCurrent-IsSynced, load_index-IsCurrent}
use ii_go.Db.Index.{MsgInfo}

-- The files of the database of that name hold the log.
abbrev pub Synced : List Msg → Bytes → Db → Type 0
Synced log name db = IsSynced db log × (db.name ≡ name)

-- They do, and so does the index in memory.
abbrev pub Current : List Msg → Bytes → Db → Type 0
Current log name db = Synced log name db × IsCurrent db log

-- What a lookup finds of the log.
abbrev pub Found : List Msg → Bytes → Bool → Option MsgInfo → Type 0
Found log id bl i = Option.map columns i ≡ Option.map entry_at (shows bl (latest id 0 log))

module _ (sha256 : Bytes → Bytes) (log : List Msg) (name : Bytes) where
  load_index-Current : (db : Db) → Synced log name db → Current log name (load_index sha256 db).1
  load_index-Current db (s, n) =
      let current = (load_index-IsCurrent sha256 db log s).1 in
      (
        (
          IsCurrent-IsSynced (load_index sha256 db).1 log current s.indexable s.size,
          name-load_index sha256 db ∙ n,
        ),
        current,
      )

  pub Ends-load_index :
      Ends (Synced log name) (load_index sha256) (λ e db. (e ≡ none) × Current log name db)
  Ends-load_index = record {
    at =
        λ db s. (none, (load_index-IsCurrent sha256 db log s.0).0, (refl, load_index-Current db s));
  }

  -- Lookup leaves an index in memory that is that of the log.
  pub Ends-lookup-Current :
      (id : Bytes) (bl : Bool)
      → Ends
          (Synced log name)
          (lookup_with sha256 id bl true)
          (λ i db. Current log name db × Found log id bl i)
  Ends-lookup-Current id bl = record {
    at = λ db s.
        let (info, e, found) = lookup_with-latest sha256 db log id bl s.0 in
        let left : (lookup_with sha256 id bl true db).1 ≡ (load_index sha256 db).1 =
          ap (λ r. r.1) (lookup_with_lem sha256 db log id bl s.0) in
        (info, e, (rw left (load_index-Current db s), found));
  }

  pub Ends-lookup_with :
      (id : Bytes) (bl : Bool)
      → Ends
          (Synced log name)
          (lookup_with sha256 id bl true)
          (λ i db. Synced log name db × Found log id bl i)
  Ends-lookup_with id bl = Ends-imp (λ i db (c, f). (c.0, f)) (Ends-lookup-Current id bl)

  pub Ends-lookup_ids :
      (ids : List Bytes) → Ends (Synced log name) (lookup_ids sha256 ids) (λ l. Synced log name)
  unfolding lookup_ids
  Ends-lookup_ids [] = Ends-pure (Synced log name) (λ l. Synced log name) [] (λ db s. s)
  Ends-lookup_ids (id ∷ ids) =
      Ends-bind (Synced log name) _ (λ l. Synced log name) (lookup_with sha256 id false true) _
        (Ends-lookup_with id false)
        (λ i.
          Ends-bind (λ db. Synced log name db × Found log id false i) (λ l. Synced log name)
            (λ l. Synced log name) (lookup_ids sha256 ids) _
            (Ends-weaken (λ db s. s.0) (Ends-lookup_ids ids))
            (λ rest. Ends-pure (Synced log name) (λ l. Synced log name) _ (λ db s. s)))
