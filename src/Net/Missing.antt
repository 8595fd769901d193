-- ===== src/Net/Missing.antt =====
-- ii/net.go: which listed ids the database lacks, and which it has after some lines.
use mathlib.Core.Option
use ii_go.Base.{
  if◌then◌else◌, Bool-cases, Option-cases, length, Bytes, str_eq, str_eq_iff, ℤ, Result, ok, err, ℕ,
  ◌+◌, ◌≡◌, refl, sym, ap, ◌∙◌, inl, inr, Bool, true, false, ◌||◌, not, Option, none, some, List,
  [], ◌∷◌, ◌++◌, arith,
}
use ii_go.Strings.{contains}
use ii_go.Msg.Encode.{Msg}
use ii_go.Msg.Decode.{MsgError, decode_bundle}
use ii_go.Msg.RoundTrip.{bundle_line}
use ii_go.Db.Index.{MsgInfo}
use ii_go.Db.State.Ends.{Ends, Ends-pure, Ends-bind, Ends-imp, Ends-frame}
use ii_go.Db.Access.{exists}
use ii_go.Db.Log.{latest, is_stored}
use ii_go.Db.Log.Get.{columns, shows, entry_at}
use ii_go.Db.Log.Keeps.{Synced, Ends-lookup_with}
use ii_go.Net.{Response, absent, new_ids}
use ii_go.Net.Storing.{add_new, grow}

-- The listed ids that a log lacks.
unfoldable pub missing : List Msg → List Bytes → List Bytes
missing log [] = []
missing log (l ∷ ls) =
    if contains l b'.'
    then missing log ls
    else if is_stored (latest l 0 log)
    then missing log ls
    else l ∷ missing log ls

abbrev is_of : Bytes → Result MsgError Msg → Bool
is_of id (err e) = false
is_of id (ok m) = str_eq m.msg_id id

-- A line gives a message with the id.
unfoldable pub brings : (Bytes → Bytes) → Bytes → List Bytes → Bool
unfolding is_of
brings sha256 id [] = false
brings sha256 id (l ∷ ls) = is_of id (decode_bundle sha256 l) || brings sha256 id ls

unfoldable pub has : Bytes → List Msg → Bool
has id [] = false
has id (m ∷ log) = str_eq m.msg_id id || has id log

pub is_stored-has :
    (id : Bytes) (off : ℕ) (log : List Msg) → is_stored (latest id off log) ≡ has id log
unfolding latest has
is_stored-has id off [] = refl
is_stored-has id off (m ∷ log) =
    elim (Option-cases (latest id (off + (length (bundle_line m) + 1)) log)) [
      | inl e ↦ ground (arith, is_stored-has id (off + (length (bundle_line m) + 1)) log)
      | inr (r, e) ↦ ground (arith, is_stored-has id (off + (length (bundle_line m) + 1)) log)
    ]

has-append : (id : Bytes) (log more : List Msg) → has id (log ++ more) ≡ (has id log || has id more)
unfolding has
has-append id [] more = refl
has-append id (m ∷ log) more = ground (arith, has-append id log more)

known-absorbs :
    (log : List Msg) (j id : Bytes) → has j log ≡ true → has id log ≡ (has id log || str_eq j id)
known-absorbs log j id h = elim (Bool-cases (str_eq j id)) [
  | inl same ↦ ground (arith, ap (λ i. has i log) ((str_eq_iff j id).0 same))
  | inr other ↦ ground arith
]

has-add_new :
    (id : Bytes) (log : List Msg) (r : Result MsgError Msg)
    → has id (add_new log r) ≡ (has id log || is_of id r)
unfolding add_new
has-add_new id log (err e) = ground arith
has-add_new id log (ok m) = elim (Bool-cases (is_stored (latest m.msg_id 0 log))) [
  | inl e ↦ rw e (known-absorbs log m.msg_id id (sym (is_stored-has m.msg_id 0 log) ∙ e))
  | inr e ↦ rw e (has-append id log (m ∷ []) ∙ unfold has in ground arith)
]

pub has-grow :
    (sha256 : Bytes → Bytes) (id : Bytes) (log : List Msg) (ls : List Bytes)
    → has id (grow sha256 log ls) ≡ (has id log || brings sha256 id ls)
unfolding grow brings
has-grow sha256 id log [] = ground arith
has-grow sha256 id log (l ∷ ls) = ground (
  arith,
  has-grow sha256 id (add_new log (decode_bundle sha256 l)) ls,
  has-add_new id log (decode_bundle sha256 l),
)

module _ (http_get : Bytes → Response) (sha256 : Bytes → Bytes) (now : ℤ) where
  module _ (log : List Msg) (name : Bytes) where
    absent-latest :
        (o : Option MsgInfo) (r : Option (ℕ × Msg))
        → Option.map columns o ≡ Option.map entry_at r
        → absent o ≡ not (is_stored r)
    absent-latest none none e = refl
    absent-latest none (some r) e = cc
    absent-latest (some i) none e = cc
    absent-latest (some i) (some r) e = refl

    shows-all : (r : Option (ℕ × Msg)) → not (is_stored (shows true r)) ≡ not (is_stored r)
    unfolding shows
    shows-all none = refl
    shows-all (some (o, m)) = refl

    pub Ends-exists :
        (id : Bytes)
        → Ends
            (Synced log name)
            (exists sha256 id)
            (λ o db. Synced log name db × (absent o ≡ not (is_stored (latest id 0 log))))
    unfolding exists
    Ends-exists id =
        Ends-imp (λ o db (s, found). (s, absent-latest o _ found ∙ shows-all (latest id 0 log)))
          (Ends-lookup_with sha256 log name id true)

    pub Ends-new_ids :
        (ls : List Bytes)
        → Ends
            (Synced log name)
            (new_ids http_get sha256 now ls)
            (λ ids db. Synced log name db × (ids ≡ missing log ls))
    unfolding new_ids missing
    Ends-new_ids [] = Ends-pure (Synced log name) _ [] (λ db s. (s, refl))
    Ends-new_ids (l ∷ ls) = elim (Bool-cases (contains l b'.')) [
      | inl e ↦ rw (new_ids, e) (Ends-new_ids ls)
      | inr e ↦
          rw (new_ids, e)
            (Ends-bind (Synced log name)
              (λ o db. Synced log name db × (absent o ≡ not (is_stored (latest l 0 log)))) _
              (exists sha256 l) _ (Ends-exists l)
              (λ o.
                Ends-bind (λ db. Synced log name db × (absent o ≡ not (is_stored (latest l 0 log))))
                  (λ ids db.
                    (Synced log name db × (ids ≡ missing log ls))
                    × (absent o ≡ not (is_stored (latest l 0 log))))
                  _ (new_ids http_get sha256 now ls) _ (Ends-frame _ (Ends-new_ids ls))
                  (λ more.
                    Ends-pure _ _ (if absent o then l ∷ more else more)
                      (λ db ((s, same), known). (s, ground (arith, known, same))))))
    ]
