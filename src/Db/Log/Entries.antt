-- ===== src/Db/Log/Entries.antt =====
-- The table of a log: topics do not matter, and an id names its last message.
use Prim.Native.Nat.{◌<◌}
use mathlib.Core.Option
use ii_go.Base.{
  Bool-cases, length, length-append, All, All-append, All-imp, Bytes, codes, str_eq, Lacks, pos,
  neg, IsInt64, ℕ, zero, suc, ◌+◌, ◌^◌, ◌<◌, ◌≡◌, refl, ap, ◌∙◌, ◌≢◌, inl, inr, Option, none, some,
  List, [], ◌∷◌, ◌++◌, map, arith,
}
use ii_go.Strings.{join}
use ii_go.Strings.Split.{contains-Lacks}
use ii_go.Dict
use ii_go.Msg.Encode.{Msg, raw_text}
use ii_go.Msg.Valid.{is_echo}
use ii_go.Msg.RoundTrip.{bundle_line}
use ii_go.Base64.RoundTrip.{IsText, encode-IsText}
use ii_go.Decimal.{print_int}
use ii_go.Decimal.RoundTrip.{print_int-Lacks}
use ii_go.Msg.Tags.{get_or_empty}
use ii_go.Db.Index.{
  MsgInfo, Entry, entry_line, to_info, Table, list_with, add_entry, untopic, clear_topics,
}
use ii_go.Db.Index.Laws.{IsColumns, add_entries}
use ii_go.Db.State.Files.{text_of}
use ii_go.Db.Load.{signed_offset, entry_of}
use ii_go.Db.Log.{IsIndexable, bundle_lines, entries_of, bundle_text, table, untopic_table}

put-clear_topics :
    (m : List (Bytes × MsgInfo)) (k : Bytes) (i : MsgInfo)
    → clear_topics (Dict.put m k i) ≡ Dict.put (clear_topics m) k (untopic i)
unfolding clear_topics Dict.put
put-clear_topics [] k i = refl
put-clear_topics ((j, w) ∷ m) k i = ground (arith, put-clear_topics m k i)

pub get-clear_topics :
    (m : List (Bytes × MsgInfo)) (k : Bytes)
    → Dict.get (clear_topics m) k ≡ Option.map untopic (Dict.get m k)
unfolding clear_topics Dict.get
get-clear_topics [] k = refl
get-clear_topics ((j, w) ∷ m) k = ground (arith, get-clear_topics m k)

to_info-untopic :
    (e : Entry) (n : ℕ) (o : Option MsgInfo)
    → untopic (to_info e n o) ≡ to_info e n (Option.map untopic o)
unfolding to_info
to_info-untopic e n none = refl
to_info-untopic e n (some i) = refl

list_with-untopic :
    (l : List Bytes) (id : Bytes) (o : Option MsgInfo)
    → list_with l id o ≡ list_with l id (Option.map untopic o)
list_with-untopic l id none = refl
list_with-untopic l id (some i) = refl

untopic_table-add_entry :
    (t : Table) (e : Entry) → untopic_table (add_entry t e) ≡ add_entry (untopic_table t) e
unfolding add_entry
untopic_table-add_entry t e =
    let o = Dict.get t.hash e.id in
    rw (
      put-clear_topics t.hash e.id (to_info e (length t.list) o),
      to_info-untopic e (length t.list) o,
      get-clear_topics t.hash e.id,
      ← list_with-untopic t.list e.id o,
    )

-- Adding entries and forgetting topics commute.
pub untopic_table-add_entries :
    (t : Table) (es : List Entry)
    → untopic_table (add_entries t es) ≡ add_entries (untopic_table t) es
unfolding add_entries
untopic_table-add_entries t [] = refl
untopic_table-add_entries t (e ∷ es) =
    untopic_table-add_entries (add_entry t e) es
    ∙ ap (λ u. add_entries u es) (untopic_table-add_entry t e)

pub untopic_table-table : (log : List Msg) → untopic_table (table log) ≡ table log
unfolding table
untopic_table-table log =
    untopic_table-add_entries _ (entries_of 0 log) ∙ unfold clear_topics in refl

pub length-bundle_text :
    (m : Msg) (log : List Msg)
    → length (bundle_text (m ∷ log)) ≡ length (bundle_line m) + 1 + length (bundle_text log)
unfolding text_of
length-bundle_text m log = omega (arith, length-append (bundle_line m) (b'\n' ∷ bundle_text log))

pub entries_of-append :
    (off : ℕ) (log more : List Msg)
    → entries_of off (log ++ more)
      ≡ entries_of off log ++ entries_of (off + length (bundle_text log)) more
entries_of-append off [] more = unfold text_of in ap (λ o. entries_of o more) (omega arith)
entries_of-append off (m ∷ log) more =
    ap (λ es. entry_of m off ∷ es)
      (entries_of-append (off + (length (bundle_line m) + 1)) log more
        ∙ ap (λ o. entries_of (off + (length (bundle_line m) + 1)) log ++ entries_of o more)
            (omega (arith, length-bundle_text m log)))

pub bundle_lines-append :
    (log more : List Msg) → bundle_lines (log ++ more) ≡ bundle_lines log ++ bundle_lines more
bundle_lines-append [] more = refl
bundle_lines-append (m ∷ log) more = ap (λ l. bundle_line m ∷ l) (bundle_lines-append log more)

bundle_line-Lacks : (m : Msg) → IsIndexable m → Lacks b'\n' (bundle_line m)
unfolding bundle_line
bundle_line-Lacks m v =
    All-append (λ c. c ≢ b'\n') m.msg_id _ v.id_line
      (
        omega arith,
        All-imp IsText (λ c. c ≢ b'\n') (λ c p. omega arith) _
            (encode-IsText (raw_text m) v.storable.bytes),
      )

pub bundle_lines-Lacks :
    (log : List Msg) → All IsIndexable log → All (Lacks b'\n') (bundle_lines log)
bundle_lines-Lacks [] v = tt
bundle_lines-Lacks (m ∷ log) v = (bundle_line-Lacks m v.0, bundle_lines-Lacks log v.1)

neg-IsInt64 : (n : ℕ) → n < 2 ^ 63 → IsInt64 (neg (pos n))
neg-IsInt64 zero h = omega arith
neg-IsInt64 (suc n) h = omega arith

signed_offset-IsInt64 : (m : Msg) (off : ℕ) → off < 2 ^ 63 → IsInt64 (signed_offset m off)
unfolding signed_offset
signed_offset-IsInt64 m off h =
    elim (Bool-cases (str_eq (get_or_empty m.tags (codes "access")) (codes "blacklist"))) [
      | inl e ↦ rw e (neg-IsInt64 off h)
      | inr n ↦ rw n h
    ]

entry_of-IsColumns : (m : Msg) (off : ℕ) → IsIndexable m → off < 2 ^ 63 → IsColumns (entry_of m off)
unfolding entry_of
entry_of-IsColumns m off v h = record {
  id_column = (v.storable.id_colon, v.id_line);
  echo_column = (
    contains-Lacks m.echo b':' (unfold is_echo in ground (arith, v.storable.good_echo)),
    v.storable.echo_line,
  );
  off_range = signed_offset-IsInt64 m off h;
  to_column = (v.to_colon, v.storable.to_line);
  from_column = (v.from_colon, v.storable.from_line);
  repto_column = v.repto_column;
}

pub entries_of-IsColumns :
    (off : ℕ) (log : List Msg)
    → All IsIndexable log
    → off + length (bundle_text log) < 2 ^ 63
    → All IsColumns (entries_of off log)
entries_of-IsColumns off [] v h = tt
entries_of-IsColumns off (m ∷ log) v h = (
  entry_of-IsColumns m off v.0 (omega arith),
  entries_of-IsColumns (off + (length (bundle_line m) + 1)) log v.1
      (omega (arith, length-bundle_text m log)),
)

column-Lacks : (s rest : Bytes) → Lacks b'\n' s → Lacks b'\n' rest → Lacks b'\n' (s ++ b':' ∷ rest)
column-Lacks s rest h k = All-append (λ c. c ≢ b'\n') s (b':' ∷ rest) h (omega arith, k)

entry_line-Lacks : (e : Entry) → IsColumns e → Lacks b'\n' (entry_line e)
unfolding entry_line join
entry_line-Lacks e c = column-Lacks e.id _ c.id_column.1 (
    column-Lacks e.echo _ c.echo_column.1 (
      column-Lacks (print_int e.off) _ (print_int-Lacks b'\n' e.off (omega arith)) (
        column-Lacks e.to _ c.to_column.1
          (column-Lacks e.from e.repto c.from_column.1 c.repto_column.1))))

pub entry_lines-Lacks : (es : List Entry) → All IsColumns es → All (Lacks b'\n') (map entry_line es)
entry_lines-Lacks [] c = tt
entry_lines-Lacks (e ∷ es) c = (entry_line-Lacks e c.0, entry_lines-Lacks es c.1)
