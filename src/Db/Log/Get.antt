-- ===== src/Db/Log/Get.antt =====
-- Lookups and Get on files that hold a log: an id names its last message, unless that is hidden.
mod Found
unfoldable pub use Found.{shows, is_hidden}
pub use Found.{
  is_neg-signed_offset, columns, entry_at, msg_at, find_info-latest, visible-shows,
  latest-bundle_at,
}
use ii_go.Db.Log.Get.Found.{
  columns, shows, entry_at, msg_at, abs-signed_offset, find_info-latest, visible-shows,
  latest-bundle_at, append-ne-nil,
}
use mathlib.Core.Option
use ii_go.Base.{
  drop_nil, All, Bytes, str_eq, str_eq_refl, abs, ok, ℕ, ◌≡◌, refl, ap, ◌∙◌, Bool, true, false,
  Option, none, some, List, [], arith,
}
use ii_go.Dict
use ii_go.Msg.Encode.{Msg}
use ii_go.Msg.RoundTrip.{bundle_line, decode_bundle-line}
use ii_go.Db.Index.{MsgInfo}
use ii_go.Db.Load.{signed_offset, entry_of, load_index}
use ii_go.Db.Access.{
  find_info, bundle_at, bundle_of, lookup_with, get_bundle_with, get_bundle, decoded, get_msg,
}
use ii_go.Db.Log.{IsIndexable, bundle_text, IsSynced, latest}
use ii_go.Db.State.{Db}
use ii_go.Db.Log.Load.{load_index-IsCurrent}
use ii_go.Db.State.Files.{contents, lines, text_of}
use ii_go.Strings.{split}

module _ (sha256 : Bytes → Bytes) where
  pub lookup_with_lem :
      (db : Db) (log : List Msg) (id : Bytes) (bl : Bool)
      → IsSynced db log
      → lookup_with sha256 id bl true db
        ≡ (ok (find_info id bl (load_index sha256 db).1), (load_index sha256 db).1)
  unfolding lookup_with
  lookup_with_lem db log id bl s = rw ((load_index-IsCurrent sha256 db log s).0)

  -- On files that hold a log, Lookup (`bl` false) and Exists (`bl` true) find the columns of the last message with the id, if it
  -- is shown, and nothing else.
  pub lookup_with-latest :
      (db : Db) (log : List Msg) (id : Bytes) (bl : Bool)
      → IsSynced db log
      → (info : Option MsgInfo) × ((lookup_with sha256 id bl true db).0 ≡ ok info)
        × (Option.map columns info ≡ Option.map entry_at (shows bl (latest id 0 log)))
  lookup_with-latest db log id bl s =
      let (loads, current) = load_index-IsCurrent sha256 db log s in
      (
        find_info id bl (load_index sha256 db).1,
        ap (λ r. r.0) (lookup_with_lem db log id bl s),
        unfold find_info in
            visible-shows bl _ (latest id 0 log) (find_info-latest _ log current.loaded id),
      )

  pub get_bundle_with_lem :
      (db : Db) (log : List Msg) (id : Bytes) (bl : Bool)
      → IsSynced db log
      → get_bundle_with sha256 id true bl db ≡ (
        ok (bundle_of (load_index sha256 db).1.bundle (find_info id bl (load_index sha256 db).1)),
        (load_index sha256 db).1,
      )
  unfolding get_bundle_with
  get_bundle_with_lem db log id bl s = rw (lookup_with_lem db log id bl s)

  pub bundle_of_lem :
      (file : Option Bytes) (o : Option MsgInfo)
      → (bundle_of file o).0 ≡ elim o [ none ↦ [] | some i ↦ bundle_at (abs i.off) (contents file) ]
  unfolding bundle_of
  bundle_of_lem file none = refl
  bundle_of_lem none (some i) = unfold bundle_at lines split in rw (drop_nil (abs i.off))
  bundle_of_lem (some f) (some i) = refl

  -- The line of the message that is shown, and no line if none is.
  unfoldable pub shown_line : Option (ℕ × Msg) → Bytes
  shown_line none = []
  shown_line (some (o, m)) = bundle_line m

  pub shows-some :
      (bl : Bool) (r : Option (ℕ × Msg)) {q : ℕ × Msg} → shows bl r ≡ some q → r ≡ some q
  unfolding shows
  shows-some bl none h = cc
  shows-some bl (some (o, m)) h = ground arith

  pub shown-bundle :
      (bl : Bool) (log : List Msg) (id : Bytes) (o : Option MsgInfo) (q : Option (ℕ × Msg))
      → All IsIndexable log
      → shows bl (latest id 0 log) ≡ q
      → Option.map columns o ≡ Option.map entry_at q
      → elim o [ none ↦ [] | some i ↦ bundle_at (abs i.off) (bundle_text log) ] ≡ shown_line q
  unfolding shown_line entry_of
  shown-bundle bl log id none none v h e = refl
  shown-bundle bl log id none (some r) v h e = cc
  shown-bundle bl log id (some i) none v h e = cc
  shown-bundle bl log id (some i) (some (o, m)) v h e =
      let same : i.off ≡ signed_offset m o = ground arith in
      rw (same, abs-signed_offset m o)
        ((latest-bundle_at [] 0 log id (unfold text_of in refl) v (shows-some bl _ h)).0)

  pub get_bundle_with-latest :
      (db : Db) (log : List Msg) (id : Bytes) (bl : Bool)
      → IsSynced db log
      → (i : Option MsgInfo) × ((get_bundle_with sha256 id true bl db).0
          ≡ ok (shown_line (shows bl (latest id 0 log)), i))
  get_bundle_with-latest db log id bl s =
      let (loads, current) = load_index-IsCurrent sha256 db log s in
      let db' = (load_index sha256 db).1 in
      let r = bundle_of db'.bundle (find_info id bl db') in
      let line : r.0 ≡ shown_line (shows bl (latest id 0 log)) =
        bundle_of_lem db'.bundle (find_info id bl db')
        ∙ ap (λ f. elim (find_info id bl db') [ none ↦ [] | some i ↦ bundle_at (abs i.off) f ])
            current.bundle_same
        ∙ shown-bundle bl log id (find_info id bl db') _ s.indexable refl
            (unfold find_info in visible-shows bl _ _ (find_info-latest _ log current.loaded id)) in
      (r.1, ap (λ x. x.0) (get_bundle_with_lem db log id bl s) ∙ ap (λ b. ok (b, r.1)) line)

  pub bundle_line-ne-nil : (m : Msg) → str_eq (bundle_line m) [] ≡ false
  unfolding bundle_line
  bundle_line-ne-nil m = append-ne-nil m.msg_id _ _

  pub decoded-shown_line :
      (log : List Msg) (id : Bytes) (q : Option (ℕ × Msg))
      → All IsIndexable log
      → shows false (latest id 0 log) ≡ q
      → decoded sha256 (shown_line q) ≡ Option.map msg_at q
  unfolding decoded shown_line
  decoded-shown_line log id none v h = ground (arith, str_eq_refl [])
  decoded-shown_line log id (some (o, m)) v h =
      let found = latest-bundle_at [] 0 log id (unfold text_of in refl) v (shows-some false _ h) in
      rw (bundle_line-ne-nil m, decode_bundle-line m found.2.storable sha256)

  -- On files that hold a log, Get returns the last stored message with the id, whole and as it was stored, unless that
  -- one is hidden (blacklisted, and not at offset 0 of the bundle file), and nothing for an id that was never stored.
  pub get_msg-latest :
      (db : Db) (log : List Msg) (id : Bytes)
      → IsSynced db log
      → (get_msg sha256 id db).0 ≡ ok (Option.map msg_at (shows false (latest id 0 log)))
  unfolding get_msg get_bundle
  get_msg-latest db log id s =
      let (i, e) = get_bundle_with-latest db log id false s in
      rw e (ap ok (decoded-shown_line log id _ s.indexable refl))
