-- ===== src/Db/Log/Rows.antt =====
-- SelectIDS on files that hold a log: every listed id has its entry in the index.
use mathlib.Core.Option
use mathlib.Core.Path.{subst}
use ii_go.Base.{
  Bool-cases, Option-cases, All, All-append, All-imp, Bytes, str_eq, ok, ◌≡◌, refl, sym, ap, ◌∙◌,
  inl, inr, Bool, Option, none, some, List, [], ◌∷◌,
}
use ii_go.Dict
use ii_go.Msg.Encode.{Msg}
use ii_go.Db.Index.{MsgInfo, Index, Entry, LoadError, Table, list_with, add_entry, clear_topics}
use ii_go.Db.Index.Laws.{add_entries}
use ii_go.Db.Query.{Query, selects, Rows, ids, select_rows}
use ii_go.Db.Select.{rows_of, select_loaded, select_ids}
use ii_go.Db.Log.{entries_of, table, IsLoaded, IsSynced, latest}
use ii_go.Db.Log.Entries.{get-clear_topics}
use ii_go.Db.State.Ends.{Ends, Ends-bind, Ends-imp}
use ii_go.Db.Access.{entries}
use ii_go.Db.Log.Get.{columns, entry_at, find_info-latest}
use ii_go.Db.Log.Keeps.{Synced, Current, Ends-load_index}
use ii_go.Db.State.{Db}
use ii_go.Db.Load.{load_index}

abbrev Has : List (Bytes × MsgInfo) → Bytes → Type 0
Has hash id = (i : MsgInfo) × (Dict.get hash id ≡ some i)

Has-put :
    (hash : List (Bytes × MsgInfo)) (k : Bytes) (v : MsgInfo) (id : Bytes)
    → Has hash id
    → Has (Dict.put hash k v) id
Has-put hash k v id (i, e) = elim (Bool-cases (str_eq k id)) [
  | inl same ↦ (v, Dict.get-put hash k id v ∙ rw same)
  | inr other ↦ (i, Dict.get-put hash k id v ∙ rw other e)
]

Has-list_with :
    (hash : List (Bytes × MsgInfo)) (list : List Bytes) (id : Bytes) (v : MsgInfo)
    (o : Option MsgInfo)
    → All (Has hash) list
    → All (Has (Dict.put hash id v)) (list_with list id o)
Has-list_with hash list id v none h =
    All-append (Has (Dict.put hash id v)) list (id ∷ [])
      (All-imp (Has hash) (Has (Dict.put hash id v)) (Has-put hash id v) list h)
      ((v, Dict.get-put_self hash id v), tt)
Has-list_with hash list id v (some i) h =
    All-imp (Has hash) (Has (Dict.put hash id v)) (Has-put hash id v) list h

Has-add_entries :
    (t : Table) (es : List Entry)
    → All (Has t.hash) t.list
    → All (Has (add_entries t es).hash) (add_entries t es).list
unfolding add_entries add_entry
Has-add_entries t [] h = h
Has-add_entries t (e ∷ es) h =
    Has-add_entries (add_entry t e) es (Has-list_with t.hash t.list e.id _ (Dict.get t.hash e.id) h)

Has-table : (log : List Msg) → All (Has (table log).hash) (table log).list
unfolding table
Has-table log = Has-add_entries (record { hash = []; list = [] }) (entries_of 0 log) tt

Has-untopic : (m : List (Bytes × MsgInfo)) (id : Bytes) → Has (clear_topics m) id → Has m id
Has-untopic m id (i, e) = elim (Option-cases (Dict.get m id)) [
  | inl missing ↦ absurd (cc (get-clear_topics m id, missing, e))
  | inr found ↦ found
]

-- The rows of a table that has all its listed ids.
pub rows_of-some :
    (hash : List (Bytes × MsgInfo)) (list : List Bytes)
    → All (Has hash) list
    → (rows : Rows) × (rows_of hash list ≡ some rows)
      × (ids rows ≡ list)
      × All (λ (r : Bytes × MsgInfo). Dict.get hash r.0 ≡ some r.1) rows
unfolding rows_of
rows_of-some hash [] h = ([], refl, refl, tt)
rows_of-some hash (id ∷ list) h =
    let (rows, e, same, found) = rows_of-some hash list h.1 in
    ((id, h.0.0) ∷ rows, rw (h.0.1, e), ap (λ l. id ∷ l) same, (h.0.1, found))

IsLoaded-Has :
    (idx : Index) (log : List Msg) → IsLoaded idx log → All (Has (entries idx.hash)) idx.list
IsLoaded-Has idx log l =
    let cleared : All (Has (clear_topics l.entries)) idx.list =
      subst (λ (t : Table). All (Has t.hash) t.list) (sym l.same_table) (Has-table log) in
    rw l.hash_entries (
      All-imp (Has (clear_topics l.entries)) (Has l.entries) (Has-untopic l.entries) idx.list
        cleared)

IsLoaded-list : (idx : Index) (log : List Msg) → IsLoaded idx log → idx.list ≡ (table log).list
IsLoaded-list idx log l = ap (λ (t : Table). t.list) l.same_table

-- Each row shows the columns of the last message with its id.
abbrev pub IsRow : List Msg → Bytes × MsgInfo → Type 0
IsRow log (id, info) = Option.map entry_at (latest id 0 log) ≡ some (columns info)

module _ (sha256 : Bytes → Bytes) (custom : Option (Query → MsgInfo → Bool)) where
  -- What SelectIDS looks at: the rows of the ids of the log.
  abbrev pub Selects : List Msg → Query → List Bytes → Type 0
  Selects log q found =
      (rows : Rows) × (found ≡ select_rows custom q rows)
      × (ids rows ≡ (table log).list)
      × All (IsRow log) rows

  select_loaded_lem :
      (db : Db) (q : Query) (rows : Rows)
      → rows_of (entries db.idx.hash) db.idx.list ≡ some rows
      → select_loaded sha256 custom q none db ≡ (ok (select_rows custom q rows), db)
  unfolding select_loaded
  select_loaded_lem db q rows e = rw (select_loaded, e)

  IsRow-found :
      (log : List Msg) (idx : Index) (rows : Rows)
      → IsLoaded idx log
      → All (λ (r : Bytes × MsgInfo). Dict.get (entries idx.hash) r.0 ≡ some r.1) rows
      → All (IsRow log) rows
  IsRow-found log idx rows l =
      All-imp (λ (r : Bytes × MsgInfo). Dict.get (entries idx.hash) r.0 ≡ some r.1) (IsRow log)
        (λ (id, info) e. sym (find_info-latest idx log l id) ∙ ap (Option.map columns) e) rows

  Ends-select_loaded :
      (log : List Msg) (name : Bytes) (q : Query) (o : Option LoadError)
      → Ends
          (λ db. (o ≡ none) × Current log name db)
          (select_loaded sha256 custom q o)
          (λ found db. Current log name db × Selects log q found)
  Ends-select_loaded log name q none = record {
    at = λ db (n, (s, current)).
        let (rows, e, same, found) =
          rows_of-some (entries db.idx.hash) db.idx.list (IsLoaded-Has db.idx log current.loaded) in
        rw (select_loaded_lem db q rows e) (
          select_rows custom q rows,
          refl,
          (
            (s, current),
            (
              rows,
              refl,
              same ∙ IsLoaded-list db.idx log current.loaded,
              IsRow-found log db.idx rows current.loaded found,
            ),
          ),
        );
  }
  Ends-select_loaded log name q (some e) = record { at = λ db (n, c). cc }

  -- SelectIDS leaves an index in memory that is that of the log.
  pub Ends-select-Current :
      (log : List Msg) (name : Bytes) (q : Query)
      → Ends
          (Synced log name)
          (select_ids sha256 custom q)
          (λ found db. Current log name db × Selects log q found)
  unfolding select_ids
  Ends-select-Current log name q =
      Ends-bind (Synced log name) _ _ (load_index sha256) _ (Ends-load_index sha256 log name)
        (λ o. Ends-select_loaded log name q o)

  pub Ends-select_ids :
      (log : List Msg) (name : Bytes) (q : Query)
      → Ends
          (Synced log name)
          (select_ids sha256 custom q)
          (λ found db. Synced log name db × Selects log q found)
  Ends-select_ids log name q = Ends-imp (λ l db (c, x). (c.0, x)) (Ends-select-Current log name q)

  -- On files that hold a log SelectIDS ends without a fault and leaves the log as it is. What it
  -- returns is what its loops select of the rows of the log: the ids of the index of the log, each with
  -- the columns of the last message that has it.
  pub select_ids-IsSynced :
      (db : Db) (log : List Msg) (q : Query)
      → IsSynced db log
      → (found : List Bytes) × ((select_ids sha256 custom q db).0 ≡ ok found)
        × (IsSynced (select_ids sha256 custom q db).1 log × Selects log q found)
  select_ids-IsSynced db log q s =
      let (found, e, (kept, selects)) = (Ends-select_ids log db.name q).at db (s, refl) in
      (found, e, (kept.0, selects))
