-- ===== src/Tool/Import.antt =====
-- ii-tool/main.go: the command store, on the lines of the bundle file.
use ii_go.Base.{
  if◌then◌else◌, Bytes, ℤ, ok, err, ℕ, ◌≡◌, refl, ◌∙◌, Bool, true, false, Option, none, some, List,
  [], ◌∷◌, ◌++◌, Result,
}
use ii_go.Msg.Encode.{Msg}
use ii_go.Msg.Decode.{MsgError, decode_bundle}
use ii_go.Db.State.{Panic, continue, Db, Exec, ◌>>=◌, pure}
use ii_go.Db.State.Ends.{Ends, Ends-pure, Ends-bind, Ends-if, Ends-known, Ends-given}
use ii_go.Db.Access.{StoreError, already_exists, lookup, store}
use ii_go.Db.Log.{IsSynced, latest, is_stored}
use ii_go.Db.Log.Get.{columns, shows, entry_at}
use ii_go.Db.Log.Keeps.{Synced, Found, Ends-lookup_with}
use ii_go.Db.Log.Store.{store_with-stored}
use ii_go.Db.Log.Names.{name-store_with}
use ii_go.Db.Index.{MsgInfo}
use ii_go.Net.{absent}
use mathlib.Core.Option

module _ (sha256 : Bytes → Bytes) (now : ℤ) where
  -- What follows a call of Store: an error ends the program.
  unfoldable pub go_on : Exec Bool → Option StoreError → Exec Bool
  go_on rest none = rest
  go_on rest (some e) = pure true

  unfoldable pub import_msg : Exec Bool → Msg → Exec Bool
  import_msg rest m =
      let fresh = (do e ← store sha256 now m; go_on rest e) in
      do i ← lookup sha256 m.msg_id; if absent i then fresh else rest

  -- The loop over the lines; whether the program ends with an error.
  unfoldable pub import_lines : List Bytes → Exec Bool
  import_lines [] = pure false
  import_lines (line ∷ ls) =
      let rest = import_lines ls in
      elim (decode_bundle sha256 line) [ err e ↦ rest | ok m ↦ import_msg rest m ]

  absent-unseen :
      (o : Option MsgInfo) (r : Option (ℕ × Msg))
      → Option.map columns o ≡ Option.map entry_at r
      → r ≡ none
      → absent o ≡ true
  absent-unseen none r e h = refl
  absent-unseen (some i) r e h = cc

  Ends-store_stored :
      (log : List Msg) (name : Bytes) (m : Msg)
      → is_stored (latest m.msg_id 0 log) ≡ true
      → Ends
          (Synced log name)
          (store sha256 now m)
          (λ r db. Synced log name db × (r ≡ some already_exists))
  unfolding store
  Ends-store_stored log name m h = record {
    at = λ db (s, n).
        let (e, kept) = store_with-stored sha256 now db log m false s (rw h refl) in
        (some already_exists, e, ((kept, name-store_with sha256 now m false db ∙ n), refl));
  }

  Ends-import_msg :
      (log : List Msg) (name : Bytes) (rest : Exec Bool) (m : Msg)
      → is_stored (latest m.msg_id 0 log) ≡ true
      → shows false (latest m.msg_id 0 log) ≡ none
      → Ends (Synced log name) (import_msg rest m) (λ failed db. (failed ≡ true) × IsSynced db log)
  unfolding import_msg go_on
  Ends-import_msg log name rest m h hidden =
      Ends-bind (Synced log name) (λ i db. Synced log name db × Found log m.msg_id false i) _
        (lookup sha256 m.msg_id) _
        (unfold lookup in Ends-lookup_with sha256 log name m.msg_id false)
        (λ i. Ends-given _ (λ found.
          Ends-if (Synced log name) _ (absent i) _ _
            (λ gone.
              Ends-bind (Synced log name) (λ r db. Synced log name db × (r ≡ some already_exists)) _
                _ _ (Ends-store_stored log name m h)
                (λ r.
                  Ends-known (go_on rest) (some already_exists) r
                    (Ends-pure (Synced log name) _ true (λ db s. (refl, s.0)))))
            (λ seen. absurd (cc (seen, absent-unseen i _ found hidden)))))

  import_lines-hidden :
      (db : Db) (log : List Msg) (line : Bytes) (ls : List Bytes) (m : Msg)
      → IsSynced db log
      → decode_bundle sha256 line ≡ ok m
      → is_stored (latest m.msg_id 0 log) ≡ true
      → shows false (latest m.msg_id 0 log) ≡ none
      → ((import_lines (line ∷ ls) db).0 ≡ ok true) × IsSynced (import_lines (line ∷ ls) db).1 log
  unfolding import_lines
  import_lines-hidden db log line ls m s e h hidden =
      let (r, out, (failed, kept)) =
        (Ends-import_msg log db.name (import_lines ls) m h hidden).at db (s, refl) in
      rw (import_lines, e) (rw failed at out, kept)

  -- Where the first loop ends without an error, the second one goes on with the third.
  abbrev Continues : Exec Bool → Exec Bool → Exec Bool → Type 0
  Continues r r' q = (db : Db) → (r db).0 ≡ ok false → r' db ≡ q (r db).1

  continue_lem :
      {A : Type 0} (r : Result Panic A) (f f' : A → Exec Bool) (q : Exec Bool) (db : Db)
      → ((a : A) → Continues (f a) (f' a) q)
      → (continue r f db).0 ≡ ok false
      → continue r f' db ≡ q (continue r f db).1
  continue_lem (ok a) f f' q db h = h a db
  continue_lem (err p) f f' q db h = λ e. cc e

  Continues-bind :
      {A : Type 0} (o : Exec A) (f f' : A → Exec Bool) (q : Exec Bool)
      → ((a : A) → Continues (f a) (f' a) q)
      → Continues (o >>= f) (o >>= f') q
  Continues-bind o f f' q h db = continue_lem (o db).0 f f' q (o db).1 h

  Continues-if :
      (b : Bool) (r r' s s' q : Exec Bool)
      → Continues r r' q
      → Continues s s' q
      → Continues (if b then r else s) (if b then r' else s') q
  Continues-if true r r' s s' q h k = h
  Continues-if false r r' s s' q h k = k

  Continues-go_on :
      (r r' q : Exec Bool) (e : Option StoreError)
      → Continues r r' q
      → Continues (go_on r e) (go_on r' e) q
  unfolding go_on
  Continues-go_on r r' q none h = h
  Continues-go_on r r' q (some e) h = λ db f. cc f

  Continues-import_msg :
      (r r' q : Exec Bool) (m : Msg)
      → Continues r r' q
      → Continues (import_msg r m) (import_msg r' m) q
  unfolding import_msg
  Continues-import_msg r r' q m h = Continues-bind (lookup sha256 m.msg_id) _ _ q (λ i.
      Continues-if (absent i) _ _ r r' q
        (Continues-bind (store sha256 now m) _ _ q (λ e. Continues-go_on r r' q e h)) h)

  Continues-decoded :
      (r r' q : Exec Bool) (o : Result MsgError Msg)
      → Continues r r' q
      → Continues
          (elim o [ err e ↦ r | ok m ↦ import_msg r m ])
          (elim o [ err e ↦ r' | ok m ↦ import_msg r' m ])
          q
  Continues-decoded r r' q (err e) h = h
  Continues-decoded r r' q (ok m) h = Continues-import_msg r r' q m h

  -- Lines that do not end the program leave the rest of them to do.
  import_lines-append :
      (before ls : List Bytes)
      → Continues (import_lines before) (import_lines (before ++ ls)) (import_lines ls)
  unfolding import_lines
  import_lines-append [] ls = λ db e. refl
  import_lines-append (line ∷ before) ls =
      Continues-decoded (import_lines before) (import_lines (before ++ ls)) (import_lines ls)
        (decode_bundle sha256 line) (import_lines-append before ls)

  -- The command store on files, on lines after which it has not ended and the files hold a log, and then on
  -- a line that is decoded to a message whose id is stored in that log and hidden (blacklisted, and not at
  -- offset 0 of the bundle file): it ends with an error, whatever lines follow, and that log stays.
  pub import_lines-blacklisted :
      (db : Db) (before : List Bytes) (log : List Msg) (line : Bytes) (ls : List Bytes) (m : Msg)
      → (import_lines before db).0 ≡ ok false
      → IsSynced (import_lines before db).1 log
      → decode_bundle sha256 line ≡ ok m
      → is_stored (latest m.msg_id 0 log) ≡ true
      → shows false (latest m.msg_id 0 log) ≡ none
      → ((import_lines (before ++ line ∷ ls) db).0 ≡ ok true)
        × IsSynced (import_lines (before ++ line ∷ ls) db).1 log
  import_lines-blacklisted db before log line ls m through s e h hidden =
      rw (import_lines-append before (line ∷ ls) db through)
        (import_lines-hidden (import_lines before db).1 log line ls m s e h hidden)
