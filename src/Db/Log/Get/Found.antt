-- ===== src/Db/Log/Get/Found.antt =====
-- What the index in memory and the bundle file of a log hold for an id.
use mathlib.Core.Option
use mathlib.Core.Option.{some-injective}
use mathlib.Core.Path.{subst}
use ii_go.Base.{
  ◌==◌, if◌then◌else◌, Bool-cases, Option-cases, length, length-append, All, Bytes, codes, str_eq,
  str_eq_iff, is_neg, abs, ℕ, zero, suc, ◌+◌, ◌≡◌, refl, sym, ap, ◌∙◌, inl, inr, Bool, true, false,
  ◌&&◌, not, Option, none, some, List, [], ◌∷◌, ◌++◌, append_assoc, arith,
}
use ii_go.Dict
use ii_go.Msg.Encode.{Msg}
use ii_go.Msg.Tags.{get_or_empty}
use ii_go.Msg.RoundTrip.{bundle_line}
use ii_go.Db.Index.{MsgInfo, Index, Entry, to_info, Table, add_entry, untopic}
use ii_go.Db.Index.Laws.{add_entries}
use ii_go.Db.Load.{signed_offset, entry_of}
use ii_go.Db.Access.{entries, visible, bundle_at}
use ii_go.Db.Log.{IsIndexable, bundle_lines, entries_of, table, IsLoaded, latest}
use ii_go.Db.State.Files.{text_of, text_of-append, lines-text_of, lines_drop}
use ii_go.Db.Log.Entries.{get-clear_topics, bundle_lines-Lacks}

-- The columns of an entry in memory.
abbrev pub columns : MsgInfo → Entry
columns i = record {
  id = i.id;
  echo = i.echo;
  off = i.off;
  to = i.to;
  from = i.from;
  repto = i.repto;
}

-- A message is hidden if its tag access says blacklist and its line is not the first of the bundle file,
-- at offset 0.
unfoldable pub is_hidden : Msg → ℕ → Bool
is_hidden m o = str_eq (get_or_empty m.tags (codes "access")) (codes "blacklist") && not (o == 0)

-- A hidden message shows only to those that ask for it (`bl`).
unfoldable pub shows : Bool → Option (ℕ × Msg) → Option (ℕ × Msg)
shows bl none = none
shows bl (some (o, m)) = if not bl && is_hidden m o then none else some (o, m)

-- The sign of an offset in the index.
pub is_neg-signed_offset : (m : Msg) (o : ℕ) → is_neg (signed_offset m o) ≡ is_hidden m o
unfolding signed_offset is_hidden
is_neg-signed_offset m zero = ground arith
is_neg-signed_offset m (suc o) = ground arith

abbrev pub entry_at : ℕ × Msg → Entry
entry_at (o, m) = entry_of m o

abbrev pub msg_at : ℕ × Msg → Msg
msg_at (o, m) = m

columns-to_info : (e : Entry) (n : ℕ) (o : Option MsgInfo) → columns (to_info e n o) ≡ e
unfolding to_info
columns-to_info e n none = refl
columns-to_info e n (some i) = refl

get-add_entry :
    (t : Table) (e : Entry) (id : Bytes)
    → Option.map columns (Dict.get (add_entry t e).hash id)
      ≡ (if str_eq e.id id then some e else Option.map columns (Dict.get t.hash id))
unfolding add_entry
get-add_entry t e id =
    let i = to_info e (length t.list) (Dict.get t.hash e.id) in
    rw (Dict.get-put t.hash e.id id i) (elim (Bool-cases (str_eq e.id id)) [
      | inl s ↦ rw s (ap some (columns-to_info e (length t.list) (Dict.get t.hash e.id)))
      | inr d ↦ rw d
    ])

or_else : Option (ℕ × Msg) → Option Entry → Option Entry
or_else none d = d
or_else (some r) d = some (entry_at r)

or_else_later :
    (o : Option (ℕ × Msg)) (b : Bool) (r : ℕ × Msg) (d : Option Entry)
    → or_else o (if b then some (entry_at r) else d)
      ≡ or_else (elim o [ some q ↦ some q | none ↦ if b then some r else none ]) d
unfolding or_else
or_else_later none true r d = refl
or_else_later none false r d = refl
or_else_later (some q) b r d = refl

or_else-none : (o : Option (ℕ × Msg)) → or_else o none ≡ Option.map entry_at o
unfolding or_else
or_else-none none = refl
or_else-none (some r) = refl

get-add_entries :
    (t : Table) (off : ℕ) (log : List Msg) (id : Bytes)
    → Option.map columns (Dict.get (add_entries t (entries_of off log)).hash id)
      ≡ or_else (latest id off log) (Option.map columns (Dict.get t.hash id))
unfolding add_entries latest or_else
get-add_entries t off [] id = refl
get-add_entries t off (m ∷ log) id =
    let off' = off + (length (bundle_line m) + 1) in
    get-add_entries (add_entry t (entry_of m off)) off' log id
    ∙ ap (or_else (latest id off' log)) (get-add_entry t (entry_of m off) id)
    ∙ unfold entry_of in or_else_later (latest id off' log) (str_eq m.msg_id id) (off, m) _

get-table :
    (log : List Msg) (id : Bytes)
    → Option.map columns (Dict.get (table log).hash id) ≡ Option.map entry_at (latest id 0 log)
unfolding table
get-table log id =
    get-add_entries (record { hash = []; list = [] }) 0 log id
    ∙ unfold Dict.get in or_else-none (latest id 0 log)

pub abs-signed_offset : (m : Msg) (o : ℕ) → abs (signed_offset m o) ≡ o
unfolding signed_offset
abs-signed_offset m zero = ground arith
abs-signed_offset m (suc o) = ground arith

columns-untopic :
    (o : Option MsgInfo) → Option.map columns (Option.map untopic o) ≡ Option.map columns o
columns-untopic none = refl
columns-untopic (some i) = refl

-- The entry of an id in the index in memory.
pub find_info-latest :
    (idx : Index) (log : List Msg)
    → IsLoaded idx log
    → (id : Bytes)
    → Option.map columns (Dict.get (entries idx.hash) id) ≡ Option.map entry_at (latest id 0 log)
find_info-latest idx log l id =
    ap (λ o. Option.map columns (Dict.get (entries o) id)) l.hash_entries
    ∙ sym (columns-untopic (Dict.get l.entries id))
    ∙ ap (Option.map columns) (sym (get-clear_topics l.entries id))
    ∙ ap (λ (t : Table). Option.map columns (Dict.get t.hash id)) l.same_table
    ∙ get-table log id

pub visible-shows :
    (bl : Bool) (o : Option MsgInfo) (r : Option (ℕ × Msg))
    → Option.map columns o ≡ Option.map entry_at r
    → Option.map columns (visible bl o) ≡ Option.map entry_at (shows bl r)
unfolding visible shows entry_of
visible-shows bl none none e = refl
visible-shows bl none (some (o, m)) e = cc
visible-shows bl (some i) none e = cc
visible-shows bl (some i) (some (o, m)) e =
    let same : i.off ≡ signed_offset m o = ground arith in
    let sign : is_neg i.off ≡ is_hidden m o = ap is_neg same ∙ is_neg-signed_offset m o in
    elim (Bool-cases (not bl && is_hidden m o)) [ inl h ↦ rw (sign, h) | inr s ↦ rw (sign, s) e ]

length-line : (l : Bytes) → length (text_of (l ∷ [])) ≡ length l + 1
length-line l = unfold text_of in omega (arith, length-append l (b'\n' ∷ []))

bundle_at_here :
    (before : List Bytes) (off : ℕ) (m : Msg) (log : List Msg)
    → off ≡ length (text_of before)
    → All IsIndexable (m ∷ log)
    → bundle_at off (text_of (before ++ bundle_lines (m ∷ log))) ≡ bundle_line m
unfolding bundle_at
bundle_at_here before off m log e v = rw (
  e,
  lines_drop before (bundle_lines (m ∷ log)),
  lines-text_of (bundle_lines (m ∷ log)) (bundle_lines-Lacks (m ∷ log) v),
)

-- The bundle line at the offset of the last message with an id.
pub latest-bundle_at :
    (before : List Bytes) (off : ℕ) (log : List Msg) (id : Bytes) {o : ℕ} {m : Msg}
    → off ≡ length (text_of before)
    → All IsIndexable log
    → latest id off log ≡ some (o, m)
    → (bundle_at o (text_of (before ++ bundle_lines log)) ≡ bundle_line m)
      × (m.msg_id ≡ id)
      × IsIndexable m
latest-bundle_at before off [] id e v h = unfold latest in cc
latest-bundle_at before off (m ∷ log) id {o} {m = m'} e v h =
    let off' = off + (length (bundle_line m) + 1) in
    let e' : off' ≡ length (text_of (before ++ bundle_line m ∷ [])) = omega (
      arith,
      ap length (text_of-append before (bundle_line m ∷ [])),
      length-append (text_of before) (text_of (bundle_line m ∷ [])),
      length-line (bundle_line m),
    ) in
    elim (Option-cases (latest id off' log)) [
      | inr ((p, q), later) ↦
          let same : latest id off' log ≡ some (o, m') = unfold latest in ground arith in
          rw (append_assoc before (bundle_line m ∷ []) (bundle_lines log)) at
            (latest-bundle_at (before ++ bundle_line m ∷ []) off' log id e' v.1 same)
      | inl last ↦
          let here : latest id off (m ∷ log)
              ≡ (if str_eq m.msg_id id then some (off, m) else none) =
            unfold latest in ground arith in
          let named : str_eq m.msg_id id ≡ true = ground arith in
          let same : ◌≡◌ {A = Option (ℕ × Msg)} (some (off, m)) (some (o, m')) = ground arith in
          subst
            (λ r.
              (bundle_at r.0 (text_of (before ++ bundle_lines (m ∷ log))) ≡ bundle_line r.1)
              × (r.1.msg_id ≡ id)
              × IsIndexable r.1)
            (some-injective (off, m) (o, m') same)
            (bundle_at_here before off m log e v, (str_eq_iff m.msg_id id).0 named, v.0)
    ]

pub append-ne-nil : (s : Bytes) (c : ℕ) (t : Bytes) → str_eq (s ++ c ∷ t) [] ≡ false
unfolding str_eq
append-ne-nil [] c t = refl
append-ne-nil (d ∷ s) c t = refl
