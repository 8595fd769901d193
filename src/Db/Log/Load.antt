-- ===== src/Db/Log/Load.antt =====
-- LoadIndex on files that hold a log: it succeeds, and the index in memory is that of the whole log,
-- whether it is read anew, read on, rebuilt, or there already.
use Prim.Native.Nat.{◌<◌}
use mathlib.Core.Path.{subst}
use mathlib.Core.List.{map-append}
use ii_go.Base.{
  ltb, length, drop_nil, length-append, All, All-append_right, Bytes, Result, ok, ℕ, ◌+◌, ◌^◌, ◌<◌,
  ◌≡◌, refl, sym, ap, ◌∙◌, ◌⊎◌, inl, inr, true, false, Option, none, some, List, [], ◌∷◌, ◌++◌, map,
  append-nil, arith,
}
use ii_go.Msg.Encode.{Msg}
use ii_go.Msg.RoundTrip.{bundle_line, decode_bundle-line}
use ii_go.Db.Index.{no_index, entry_line, LoadError, Table}
use ii_go.Db.Index.Laws.{IsColumns, add_entries, add_entries-append, read_lines-entry_line}
use ii_go.Db.State.{Db, Panic}
use ii_go.Db.State.Files.{contents, text_of, text_of-append, lines-text_of, lines_drop}
use ii_go.Db.Load.{
  entry_of, index_lines, create_index, read_from, finish, load_fresh, load_tail, load_existing,
  load_from, load_index,
}
use ii_go.Db.Log.{
  IsIndexable, bundle_lines, entries_of, bundle_text, index_text, table, untopic_table, IsLoaded,
  IsBehind, IsSynced,
}
use ii_go.Db.Log.Entries.{
  untopic_table-table, entries_of-append, bundle_lines-Lacks, entries_of-IsColumns,
  entry_lines-Lacks,
}

-- After LoadIndex.
pub record IsCurrent (db : Db) (log : List Msg) : Type 0 where
  pub bundle_same : contents db.bundle ≡ bundle_text log
  pub index_same : db.index ≡ some (index_text log)
  pub loaded : IsLoaded db.idx log

pub IsCurrent-IsSynced :
    (db : Db) (log : List Msg)
    → IsCurrent db log
    → All IsIndexable log
    → length (bundle_text log) < 2 ^ 63
    → IsSynced db log
IsCurrent-IsSynced db log c v size = record {
  indexable = v;
  bundle_file = c.bundle_same;
  size = size;
  index_file = inr c.index_same;
  memory =
      inr
        (record { seen = log; unseen = []; all_of_log = sym (append-nil log); loaded = c.loaded });
}

abbrev Loads : Result Panic (Option LoadError) × Db → List Msg → Type 0
Loads r log = (r.0 ≡ ok none) × IsCurrent r.1 log

log-IsColumns :
    (log : List Msg)
    → All IsIndexable log
    → length (bundle_text log) < 2 ^ 63
    → All IsColumns (entries_of 0 log)
log-IsColumns log v h = entries_of-IsColumns 0 log v (omega arith)

module _ (sha256 : Bytes → Bytes) where
  -- For messages that can be indexed, the lines that _CreateIndex makes from the lines of their bundles
  -- are the index lines that were written message by message.
  pub index_lines-bundle_lines :
      (off : ℕ) (log : List Msg)
      → All IsIndexable log
      → index_lines sha256 off (bundle_lines log) ≡ map entry_line (entries_of off log)
  unfolding index_lines
  index_lines-bundle_lines off [] v = refl
  index_lines-bundle_lines off (m ∷ log) v =
      rw (decode_bundle-line m v.0.storable sha256, index_lines)
        (ap (λ l. entry_line (entry_of m off) ∷ l)
          (index_lines-bundle_lines (off + (length (bundle_line m) + 1)) log v.1))

  -- A missing index file is built as it would have been written.
  create_index-missing :
      (db : Db) (log : List Msg)
      → All IsIndexable log
      → contents db.bundle ≡ bundle_text log
      → db.index ≡ none
      → (create_index sha256 db).index ≡ some (index_text log)
  unfolding create_index
  create_index-missing db log v b e =
      rw
        (
          e,
          b,
          lines-text_of (bundle_lines log) (bundle_lines-Lacks log v),
          index_lines-bundle_lines 0 log v,
        )
        (rw drop_nil (rw append-nil))

  -- The tail of the index file, read into the table of what stands before it.
  read_from-tail :
      (seen unseen : List Msg)
      → All IsColumns (entries_of 0 (seen ++ unseen))
      → read_from sha256 (length (index_text seen)) (table seen) (index_text (seen ++ unseen))
        ≡ (table (seen ++ unseen), none)
  unfolding read_from table
  read_from-tail seen unseen c =
      let first = entries_of 0 seen in
      let rest = entries_of (0 + length (bundle_text seen)) unseen in
      let columns : All IsColumns (first ++ rest) = rw (entries_of-append 0 seen unseen) at c in
      let rest_columns = All-append_right IsColumns first rest columns in
      rw (
        entries_of-append 0 seen unseen,
        map-append,
        lines_drop (map entry_line first) (map entry_line rest),
        lines-text_of (map entry_line rest) (entry_lines-Lacks rest rest_columns),
        read_lines-entry_line (add_entries (record { hash = []; list = [] }) first) rest
            rest_columns,
        add_entries-append,
      )

  read_from-start :
      (log : List Msg)
      → All IsColumns (entries_of 0 log)
      → read_from sha256 0 (record { hash = []; list = [] }) (index_text log) ≡ (table log, none)
  unfolding read_from table
  read_from-start log c =
      rw
        (lines-text_of (map entry_line (entries_of 0 log)) (entry_lines-Lacks (entries_of 0 log) c))
        (read_lines-entry_line _ (entries_of 0 log) c)

  -- What is stored in db.Idx when all lines were good.
  finish-IsCurrent :
      (db : Db) (log : List Msg) (t : Table)
      → contents db.bundle ≡ bundle_text log
      → db.index ≡ some (index_text log)
      → t ≡ table log
      → ((finish sha256 (length (index_text log)) (t, none) db).0 ≡ ok none)
        × IsCurrent (finish sha256 (length (index_text log)) (t, none) db).1 log
  unfolding finish
  finish-IsCurrent db log t b e s = (
    refl,
    record {
      bundle_same = b;
      index_same = e;
      loaded = record {
        entries = t.hash;
        hash_entries = refl;
        same_table = ap untopic_table s ∙ untopic_table-table log;
        whole_file = refl;
      };
    },
  )

  load_fresh-IsCurrent :
      (db : Db) (log : List Msg)
      → All IsColumns (entries_of 0 log)
      → contents db.bundle ≡ bundle_text log
      → db.index ≡ some (index_text log)
      → ((load_fresh sha256 (index_text log) db).0 ≡ ok none)
        × IsCurrent (load_fresh sha256 (index_text log) db).1 log
  unfolding load_fresh
  load_fresh-IsCurrent db log c b e =
      rw (read_from-start log c) (finish-IsCurrent db log (table log) b e refl)

  load_tail-IsCurrent :
      (db : Db) (seen unseen : List Msg) (l : IsLoaded db.idx seen)
      → All IsColumns (entries_of 0 (seen ++ unseen))
      → contents db.bundle ≡ bundle_text (seen ++ unseen)
      → db.index ≡ some (index_text (seen ++ unseen))
      → ((load_tail sha256 (index_text (seen ++ unseen)) l.entries db).0 ≡ ok none)
        × IsCurrent (load_tail sha256 (index_text (seen ++ unseen)) l.entries db).1 (seen ++ unseen)
  unfolding load_tail
  load_tail-IsCurrent db seen unseen l c b e =
      rw (l.whole_file, l.same_table, read_from-tail seen unseen c)
        (finish-IsCurrent _ (seen ++ unseen) (table (seen ++ unseen)) b e refl)

  length-index_text-lt :
      (seen : List Msg) (m : Msg) (ms : List Msg)
      → length (index_text seen) < length (index_text (seen ++ m ∷ ms))
  length-index_text-lt seen m ms =
      let first = map entry_line (entries_of 0 seen) in
      let rest = map entry_line (entries_of (0 + length (bundle_text seen)) (m ∷ ms)) in
      rw
        (
          entries_of-append 0 seen (m ∷ ms),
          map-append,
          text_of-append first rest,
          length-append (text_of first) (text_of rest),
        )
        (unfold text_of in
          omega (
            arith,
            length-append (entry_line (entry_of m (0 + length (bundle_text seen)))) (
                b'\n'
                ∷ text_of (
                    map entry_line (
                      entries_of (0 + length (bundle_text seen) + (length (bundle_line m) + 1))
                        ms))),
          ))

  load_behind-IsCurrent :
      (db : Db) (seen unseen : List Msg) (l : IsLoaded db.idx seen)
      → All IsColumns (entries_of 0 (seen ++ unseen))
      → contents db.bundle ≡ bundle_text (seen ++ unseen)
      → db.index ≡ some (index_text (seen ++ unseen))
      → ((load_existing sha256 (index_text (seen ++ unseen)) (some l.entries) db).0 ≡ ok none)
        × IsCurrent
            (load_existing sha256 (index_text (seen ++ unseen)) (some l.entries) db).1
            (seen ++ unseen)
  unfolding load_existing
  load_behind-IsCurrent db seen [] l c b e =
      let same : ltb db.idx.file_size (length (index_text (seen ++ []))) ≡ false =
        rw (append-nil seen) (ground (arith, l.whole_file)) in
      let same' : ltb (length (index_text (seen ++ []))) db.idx.file_size ≡ false =
        rw (append-nil seen) (ground (arith, l.whole_file)) in
      rw (same, same')
        (refl, record { bundle_same = b; index_same = e; loaded = rw (append-nil seen) l })
  load_behind-IsCurrent db seen (m ∷ ms) l c b e =
      let more : ltb db.idx.file_size (length (index_text (seen ++ m ∷ ms))) ≡ true =
        ground (arith, l.whole_file, length-index_text-lt seen m ms) in
      rw more (load_tail-IsCurrent db seen (m ∷ ms) l c b e)

  load_existing-IsCurrent :
      (db : Db) (log : List Msg)
      → All IsColumns (entries_of 0 log)
      → contents db.bundle ≡ bundle_text log
      → db.index ≡ some (index_text log)
      → (db.idx.hash ≡ none) ⊎ IsBehind db.idx log
      → Loads (load_existing sha256 (index_text log) db.idx.hash db) log
  load_existing-IsCurrent db log c b e (inl n) =
      subst (λ o. Loads (load_existing sha256 (index_text log) o db) log) (sym n)
        (unfold load_existing in load_fresh-IsCurrent db log c b e)
  load_existing-IsCurrent db log c b e (inr h) =
      let a = h.all_of_log in
      subst (λ o. Loads (load_existing sha256 (index_text log) o db) log)
        (sym h.loaded.hash_entries)
        (subst (λ l. Loads (load_existing sha256 (index_text l) (some h.loaded.entries) db) l)
          (sym a)
          (load_behind-IsCurrent db h.seen h.unseen h.loaded
            (subst (λ l. All IsColumns (entries_of 0 l)) a c) (b ∙ ap bundle_text a)
            (e ∙ ap (λ l. some (index_text l)) a)))

  -- On files that hold a log LoadIndex neither fails nor panics, and leaves the index of the whole log
  -- in memory: with no index in memory, with an older one, and with no index file.
  pub load_index-IsCurrent :
      (db : Db) (log : List Msg)
      → IsSynced db log
      → ((load_index sha256 db).0 ≡ ok none) × IsCurrent (load_index sha256 db).1 log
  unfolding load_index
  load_index-IsCurrent db log s =
      let columns = log-IsColumns log s.indexable s.size in
      elim s.index_file [
        | inl missing ↦
            let db' = create_index sha256 (record db { idx = no_index }) in
            let made : db'.index ≡ some (index_text log) =
              create_index-missing (record db { idx = no_index }) log s.indexable s.bundle_file
                missing in
            subst (λ o. Loads (load_from sha256 o db) log) (sym missing)
              (unfold load_from in
                subst (λ f. Loads (load_fresh sha256 f db') log) (sym (ap contents made))
                  (load_fresh-IsCurrent db' log columns (unfold create_index in s.bundle_file)
                    made))
        | inr there ↦
            subst (λ o. Loads (load_from sha256 o db) log) (sym there)
              (unfold load_from in
                load_existing-IsCurrent db log columns s.bundle_file there s.memory)
      ]
