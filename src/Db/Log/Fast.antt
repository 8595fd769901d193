-- ===== src/Db/Log/Fast.antt =====
-- ii/db.go: GetFast and LookupIDS behind a loaded index, on files that hold a log.
use mathlib.Core.Option
use mathlib.Core.Path.{subst}
use ii_go.Base.{
  Option-cases, length, All, Bytes, str_eq, str_eq_iff, abs, ℕ, ◌+◌, ◌≡◌, refl, sym, ap, ◌∙◌, inl,
  inr, true, false, Option, none, some, List, [], ◌∷◌, arith,
}
use ii_go.Msg.Valid.{is_msg_id}
use ii_go.Msg.Encode.{Msg}
use ii_go.Msg.RoundTrip.{bundle_line}
use ii_go.Db.Index.{MsgInfo}
use ii_go.Db.State.{Db}
use ii_go.Db.State.Ends.{Ends, Ends-pure, Ends-bind, Ends-if, Ends-weaken}
use ii_go.Db.State.Files.{text_of}
use ii_go.Db.Access.{
  find_info, bundle_at, bundle_of, lookup_with, lookup_fast, collect, lookup_ids, get_bundle_with,
  decoded, get_fast,
}
use ii_go.Db.Load.{entry_of}
use ii_go.Db.Log.{IsIndexable, latest}
use ii_go.Db.Log.Get.{
  columns, shows, entry_at, msg_at, find_info-latest, visible-shows, latest-bundle_at,
  bundle_of_lem, shown_line, shows-some, shown-bundle, decoded-shown_line,
}
use ii_go.Db.Log.Keeps.{Current, Found, Ends-lookup-Current}

named_id : (id : Bytes) → is_msg_id id ≡ true → str_eq id [] ≡ false
unfolding is_msg_id str_eq
named_id [] h = ground arith
named_id (c ∷ id) h = refl

-- No message of a log has the empty id.
pub unnamed-absent : (log : List Msg) (off : ℕ) → All IsIndexable log → latest [] off log ≡ none
unfolding latest
unnamed-absent [] off v = refl
unnamed-absent (m ∷ log) off v =
    rw (unnamed-absent log (off + (length (bundle_line m) + 1)) v.1)
      (rw (named_id m.msg_id v.0.storable.good_id))

module _ (sha256 : Bytes → Bytes) (log : List Msg) (name : Bytes) where
  fast_line :
      (db : Db) (id : Bytes)
      → Current log name db
      → (bundle_of db.bundle (find_info id false db)).0
        ≡ shown_line sha256 (shows false (latest id 0 log))
  fast_line db id (s, current) =
      bundle_of_lem sha256 db.bundle (find_info id false db)
      ∙ ap (λ f. elim (find_info id false db) [ none ↦ [] | some i ↦ bundle_at (abs i.off) f ])
          current.bundle_same
      ∙ shown-bundle sha256 false log id (find_info id false db) _ s.0.indexable refl
          (unfold find_info in visible-shows false _ _ (find_info-latest _ log current.loaded id))

  pub Ends-get_fast :
      (id : Bytes)
      → Ends
          (Current log name)
          (get_fast sha256 id)
          (λ o db. Current log name db × (o ≡ Option.map msg_at (shows false (latest id 0 log))))
  unfolding get_fast get_bundle_with lookup_with
  Ends-get_fast id = record {
    at = λ db c. (
      decoded sha256 ((bundle_of db.bundle (find_info id false db)).0),
      refl,
      (
        c,
        ap (decoded sha256) (fast_line db id c)
            ∙ decoded-shown_line sha256 log id _ c.0.0.indexable refl,
      ),
    );
  }

  pub Found-id :
      (id : Bytes) (i : MsgInfo) → All IsIndexable log → Found log id false (some i) → i.id ≡ id
  unfolding shows entry_of
  Found-id id i v f = elim (Option-cases (shows false (latest id 0 log))) [
    | inl e ↦
        (let bad : some (columns i) ≡ none = f ∙ ap (Option.map entry_at) e in absurd (cc bad))
    | inr ((o, m), e) ↦
        let same : some (columns i) ≡ some (entry_at (o, m)) = f ∙ ap (Option.map entry_at) e in
        let line =
          latest-bundle_at [] 0 log id (unfold text_of in refl) v (shows-some sha256 false _ e) in
        cc (same, line.1)
  ]

  collected :
      (P : Bytes → Type 0) (id : Bytes) (i : Option MsgInfo) (l : List MsgInfo)
      → All IsIndexable log
      → Found log id false i
      → P id
      → All (λ (j : MsgInfo). P j.id) l
      → All (λ (j : MsgInfo). P j.id) (collect sha256 i l)
  unfolding collect
  collected P id none l v f p h = h
  collected P id (some i) l v f p h = (subst P (sym (Found-id id i v f)) p, h)

  -- LookupIDS of ids with a property gives entries whose ids have it.
  pub Ends-lookup_infos :
      (P : Bytes → Type 0) (ids : List Bytes)
      → All P ids
      → Ends
          (Current log name)
          (lookup_ids sha256 ids)
          (λ l db. Current log name db × All (λ (i : MsgInfo). P i.id) l)
  unfolding lookup_ids
  Ends-lookup_infos P [] h = Ends-pure _ _ [] (λ db c. (c, tt))
  Ends-lookup_infos P (id ∷ ids) h =
      Ends-bind (Current log name) _ _ _ _
        (Ends-weaken (λ db (c : Current log name db). c.0)
          (Ends-lookup-Current sha256 log name id false))
        (λ i. record {
          at = λ db (c, f).
              let (rest, e, (kept, all)) = (Ends-lookup_infos P ids (h.1)).at db c in
              (
                collect sha256 i rest,
                rw e refl,
                (rw e kept, collected P id i rest (c.0.0.indexable) f (h.0) all),
              );
        })

  -- LookupFast finds what Lookup finds.
  pub Ends-lookup_fast :
      (id : Bytes)
      → Ends
          (Current log name)
          (lookup_fast sha256 id false)
          (λ i db. Current log name db × Found log id false i)
  unfolding lookup_fast lookup_with shows
  Ends-lookup_fast id =
      Ends-if _ _ (str_eq id []) _ _
        (λ e.
          let empty : id ≡ [] = (str_eq_iff id []).0 e in
          Ends-pure _ _ none (λ db c. (c, rw (empty, unnamed-absent log 0 (c.0.0.indexable)))))
        (λ e. record {
          at = λ db c. (
            find_info id false db,
            refl,
            (
              c,
              unfold find_info in visible-shows false _ _ (find_info-latest _ log (c.1.loaded) id),
            ),
          );
        })
