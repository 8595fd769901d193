-- ===== src/Db/Log/Bundle.antt =====
-- ii/db.go: GetBundleInfo on files that hold a log, as a step of a handler.
use ii_go.Base.{Bytes, ◌≡◌, refl, ◌⊎◌, inl, inr, true, false, Option, none, some, List, []}
use ii_go.Msg.Encode.{Msg}
use ii_go.Db.Index.{MsgInfo}
use ii_go.Db.State.Ends.{Ends, Ends-gets, Ends-bind}
use ii_go.Db.Access.{bundle_of, lookup_with, get_bundle_with, get_bundle_info}
use ii_go.Db.Log.{latest}
use ii_go.Db.Log.Get.{shows, shown_line, get_bundle_with-latest}
use ii_go.Db.Log.Keeps.{Synced, Found, Ends-lookup_with}

-- A bundle comes with the columns that were looked up.
bundle_of-columns :
    (file : Option Bytes) (o : Option MsgInfo)
    → ((bundle_of file o).0 ≡ []) ⊎ ((bundle_of file o).1 ≡ o)
unfolding bundle_of
bundle_of-columns file none = inl refl
bundle_of-columns none (some i) = inl refl
bundle_of-columns (some f) (some i) = inr refl

module _ (sha256 : Bytes → Bytes) (log : List Msg) (name : Bytes) where
  -- What GetBundleInfo finds of the log: the line of the message that is shown, with its columns.
  abbrev pub IsBundle : Bytes → Bytes × Option MsgInfo → Type 0
  IsBundle id (line, i) =
      (line ≡ shown_line sha256 (shows false (latest id 0 log)))
      × ((line ≡ []) ⊎ Found log id false i)

  Ends-columns :
      (id : Bytes)
      → Ends
          (Synced log name)
          (get_bundle_info sha256 id)
          (λ r db. Synced log name db × ((r.0 ≡ []) ⊎ Found log id false r.1))
  unfolding get_bundle_info get_bundle_with
  Ends-columns id =
      Ends-bind (Synced log name) (λ i db. Synced log name db × Found log id false i) _
        (lookup_with sha256 id false true) _ (Ends-lookup_with sha256 log name id false)
        (λ i.
          Ends-gets _ _ (λ db. bundle_of db.bundle i)
            (λ db (s, f).
              (s, elim (bundle_of-columns db.bundle i) [ inl e ↦ inl e | inr e ↦ inr (rw e f) ])))

  pub Ends-get_bundle_info :
      (id : Bytes)
      → Ends
          (Synced log name)
          (get_bundle_info sha256 id)
          (λ r db. Synced log name db × IsBundle id r)
  unfolding get_bundle_info
  Ends-get_bundle_info id = record {
    at = λ db s.
        let (r, e, (kept, found)) = (Ends-columns id).at db s in
        let (i, line) = get_bundle_with-latest sha256 db log id false s.0 in
        (r, e, (kept, (cc (e, line), found)));
  }
