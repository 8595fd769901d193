-- ===== src/Db/Log/Store.antt =====
-- Store, Edit and Blacklist on files that hold a log: the message goes to its end.
use Prim.Native.Nat.{◌<◌}
use mathlib.Core.Option
use mathlib.Core.List.{map-append}
use ii_go.Base.{
  if◌then◌else◌, Bool-cases, length, All, All-append, Bytes, ℤ, ok, ℕ, ◌+◌, ◌^◌, ◌<◌, ◌≡◌, refl,
  sym, ap, ◌∙◌, ◌⊎◌, inl, inr, Bool, true, ◌&&◌, not, Option, none, some, List, [], ◌∷◌, ◌++◌, map,
  arith,
}
use ii_go.Dict
use ii_go.Msg.Encode.{Msg, encode}
use ii_go.Msg.RoundTrip.{bundle_line, encode-bundle_line}
use ii_go.Db.Index.{MsgInfo, entry_line}
use ii_go.Db.State.{Db}
use ii_go.Db.State.Files.{contents, append_file, text_of, append_file-text_of, append_file-contents}
use ii_go.Db.Load.{entry_of, load_index}
use ii_go.Db.Access.{
  entries, StoreError, already_exists, write_msg, is_known, put_msg, store_with, edit,
}
use ii_go.Db.Log.{
  IsIndexable, bundle_lines, entries_of, bundle_text, index_text, IsSynced, latest, is_stored,
}
use ii_go.Db.Log.Entries.{entries_of-append, bundle_lines-append}
use ii_go.Db.Log.Load.{IsCurrent, IsCurrent-IsSynced, load_index-IsCurrent}
use ii_go.Db.Log.Get.{columns, entry_at, find_info-latest}

module _ (sha256 : Bytes → Bytes) (now : ℤ) where
  bundle_text-append :
      (log : List Msg) (m : Msg)
      → bundle_text (log ++ m ∷ []) ≡ text_of (bundle_lines log ++ bundle_line m ∷ [])
  bundle_text-append log m = ap text_of (bundle_lines-append log (m ∷ []))

  index_text-append :
      (log : List Msg) (m : Msg)
      → index_text (log ++ m ∷ [])
        ≡ text_of (
            map entry_line (entries_of 0 log)
            ++ entry_line (entry_of m (length (bundle_text log))) ∷ [])
  index_text-append log m =
      let here : 0 + length (bundle_text log) ≡ length (bundle_text log) = omega arith in
      ap (λ es. text_of (map entry_line es))
        (entries_of-append 0 log (m ∷ []) ∙ ap (λ o. entries_of 0 log ++ entry_of m o ∷ []) here)
      ∙ ap text_of
          (map-append entry_line (entries_of 0 log) (entry_of m (length (bundle_text log)) ∷ []))

  write_msg_lem :
      (db : Db) (log : List Msg) (m m' : Msg)
      → contents db.bundle ≡ bundle_text log
      → encode sha256 now m ≡ (bundle_line m', m')
      → write_msg sha256 now m db ≡ record db {
        bundle = append_file db.bundle (bundle_line m');
        index = append_file db.index (entry_line (entry_of m' (length (bundle_text log))));
      }
  unfolding write_msg
  write_msg_lem db log m m' b e = rw (e, b)

  write_msg-IsSynced :
      (db : Db) (log : List Msg) (m m' : Msg)
      → IsCurrent db log
      → All IsIndexable log
      → encode sha256 now m ≡ (bundle_line m', m')
      → IsIndexable m'
      → length (bundle_text (log ++ m' ∷ [])) < 2 ^ 63
      → IsSynced (write_msg sha256 now m db) (log ++ m' ∷ [])
  write_msg-IsSynced db log m m' c v e w size =
      rw (write_msg_lem db log m m' c.bundle_same e) (record {
        indexable = All-append IsIndexable log (m' ∷ []) v (w, tt);
        bundle_file =
            append_file-contents db.bundle (bundle_lines log) (bundle_line m') c.bundle_same
            ∙ sym (bundle_text-append log m');
        size = size;
        index_file = inr (
            ap (λ f. append_file f (entry_line (entry_of m' (length (bundle_text log)))))
              c.index_same
            ∙ append_file-text_of (map entry_line (entries_of 0 log)) _
            ∙ ap some (sym (index_text-append log m')));
        memory =
            inr (record { seen = log; unseen = m' ∷ []; all_of_log = refl; loaded = c.loaded });
      })

  is_known-is_stored :
      (o : Option MsgInfo) (r : Option (ℕ × Msg))
      → Option.map columns o ≡ Option.map entry_at r
      → is_known sha256 now o ≡ is_stored r
  unfolding is_known
  is_known-is_stored none none e = refl
  is_known-is_stored none (some r) e = cc
  is_known-is_stored (some i) none e = cc
  is_known-is_stored (some i) (some r) e = refl

  pub store_with-refused :
      (db : Db) (log : List Msg) (m : Msg) (edit : Bool)
      → IsSynced db log
      → (r : Option StoreError) × ((store_with sha256 now m edit db).0 ≡ ok r)
        × ((r ≡ none) ⊎ IsSynced (store_with sha256 now m edit db).1 log)
  unfolding store_with
  store_with-refused db log m edit s =
      let (loads, current) = load_index-IsCurrent sha256 db log s in
      let db' = (load_index sha256 db).1 in
      elim (Bool-cases
        (is_known sha256 now (Dict.get (entries db'.idx.hash) m.msg_id) && not edit)) [
          | inl e ↦
              rw (loads, put_msg, e)
                (
                  some already_exists,
                  refl,
                  inr (IsCurrent-IsSynced db' log current s.indexable s.size),
                )
          | inr n ↦ rw (loads, put_msg, n) (none, refl, inl refl)
        ]

  -- A message that is stored is refused.
  pub store_with-stored :
      (db : Db) (log : List Msg) (m : Msg) (edit : Bool)
      → IsSynced db log
      → (is_stored (latest m.msg_id 0 log) && not edit) ≡ true
      → ((store_with sha256 now m edit db).0 ≡ ok (some already_exists))
        × IsSynced (store_with sha256 now m edit db).1 log
  unfolding store_with
  store_with-stored db log m edit s e =
      let (loads, current) = load_index-IsCurrent sha256 db log s in
      let db' = (load_index sha256 db).1 in
      let known =
        is_known-is_stored (Dict.get (entries db'.idx.hash) m.msg_id) _
          (find_info-latest db'.idx log current.loaded m.msg_id) in
      rw (loads, put_msg, known, e) (refl, IsCurrent-IsSynced db' log current s.indexable s.size)

  pub store_with-encode :
      (db : Db) (log : List Msg) (m m' : Msg) (edit : Bool)
      → IsSynced db log
      → encode sha256 now m ≡ (bundle_line m', m')
      → IsIndexable m'
      → length (bundle_text (log ++ m' ∷ [])) < 2 ^ 63
      → ((store_with sha256 now m edit db).0
          ≡ ok
              (if is_stored (latest m.msg_id 0 log) && not edit then some already_exists else none))
        × IsSynced
            (store_with sha256 now m edit db).1
            (if is_stored (latest m.msg_id 0 log) && not edit then log else log ++ m' ∷ [])
  unfolding store_with
  store_with-encode db log m m' edit s enc w size =
      let (loads, current) = load_index-IsCurrent sha256 db log s in
      let db' = (load_index sha256 db).1 in
      let known =
        is_known-is_stored (Dict.get (entries db'.idx.hash) m.msg_id) _
          (find_info-latest db'.idx log current.loaded m.msg_id) in
      elim (Bool-cases (is_stored (latest m.msg_id 0 log) && not edit)) [
        | inl e ↦ rw e (store_with-stored db log m edit s e)
        | inr n ↦
            rw (loads, put_msg, known, n)
              (refl, write_msg-IsSynced db' log m m' current s.indexable enc w size)
      ]

  -- On files that hold a log, and for a message that can be indexed and with which the bundle file stays
  -- below 2^63 bytes: Store (`edit` false) refuses a message whose id is stored, and leaves the log as
  -- it is; otherwise, and always for Edit, it succeeds and the files hold the log with the message at
  -- its end.
  pub store_with-IsSynced :
      (db : Db) (log : List Msg) (m : Msg) (edit : Bool)
      → IsSynced db log
      → IsIndexable m
      → length (bundle_text (log ++ m ∷ [])) < 2 ^ 63
      → ((store_with sha256 now m edit db).0
          ≡ ok
              (if is_stored (latest m.msg_id 0 log) && not edit then some already_exists else none))
        × IsSynced
            (store_with sha256 now m edit db).1
            (if is_stored (latest m.msg_id 0 log) && not edit then log else log ++ m ∷ [])
  store_with-IsSynced db log m edit s w size =
      store_with-encode db log m m edit s (encode-bundle_line m w.storable sha256 now) w size
