-- ===== src/Net/Storing.antt =====
-- ii/net.go: what Node.Store makes of the database.
use mathlib.Core.Path.{subst}
use ii_go.Base.{
  if◌then◌else◌, Bool-cases, length, All, All-append_left, All-append_right, Bytes, ℤ, Result, ok,
  err, ◌^◌, ◌≤◌, ◌<◌, ◌≡◌, refl, sym, ◌∙◌, inl, inr, Bool, true, false, ◌||◌, none, some, List, [],
  ◌∷◌, ◌++◌, append-nil, arith,
}
use ii_go.Msg.Encode.{Msg}
use ii_go.Msg.Decode.{MsgError, decode_bundle}
use ii_go.Db.State.Ends.{Ends, Ends-pure, Ends-bind}
use ii_go.Db.State.Files.{text_of}
use ii_go.Db.Log.{IsIndexable, bundle_text, IsSynced, latest, is_stored}
use ii_go.Db.Log.Entries.{length-bundle_text}
use ii_go.Db.Log.Keeps.{Synced}
use ii_go.Net.{Response, Node, store_line, store_lines, store_ids}
use ii_go.Net.Batches.{batches, batch_lines, ask_batches, store_ids-from}
use ii_go.Db.State.{Db, Exec, ◌>>=◌, pure}
use ii_go.Db.Access.{already_exists, store}
use ii_go.Db.Log.Store.{store_with-stored, store_with-IsSynced}
use ii_go.Db.Log.Names.{name-store_with}

-- What a decoded line adds to a log: a message whose id is not stored.
unfoldable pub add_new : List Msg → Result MsgError Msg → List Msg
add_new log (err e) = log
add_new log (ok m) = if is_stored (latest m.msg_id 0 log) then log else log ++ m ∷ []

-- The log after some lines.
unfoldable pub grow : (Bytes → Bytes) → List Msg → List Bytes → List Msg
grow sha256 log [] = log
grow sha256 log (b ∷ bs) = grow sha256 (add_new log (decode_bundle sha256 b)) bs

-- A line that cannot be decoded, or gives a message that can be indexed.
unfoldable pub IsLine : (Bytes → Bytes) → Bytes → Type 0
IsLine sha256 b = (m : Msg) → decode_bundle sha256 b ≡ ok m → IsIndexable m

abbrev pub Fits : List Msg → Type 0
Fits log = length (bundle_text log) < 2 ^ 63

length-bundle_text-append :
    (log more : List Msg) → length (bundle_text log) ≤ length (bundle_text (log ++ more))
length-bundle_text-append [] more = unfold text_of in omega arith
length-bundle_text-append (m ∷ log) more = omega (
  arith,
  length-bundle_text m log,
  length-bundle_text m (log ++ more),
  length-bundle_text-append log more,
)

length-add_new :
    (log : List Msg) (r : Result MsgError Msg)
    → length (bundle_text log) ≤ length (bundle_text (add_new log r))
unfolding add_new
length-add_new log (err e) = omega arith
length-add_new log (ok m) = elim (Bool-cases (is_stored (latest m.msg_id 0 log))) [
  | inl e ↦ rw e (omega arith)
  | inr e ↦ rw e (length-bundle_text-append log (m ∷ []))
]

length-grow :
    (sha256 : Bytes → Bytes) (log : List Msg) (bs : List Bytes)
    → length (bundle_text log) ≤ length (bundle_text (grow sha256 log bs))
unfolding grow
length-grow sha256 log [] = omega arith
length-grow sha256 log (b ∷ bs) = omega (
  arith,
  length-add_new log (decode_bundle sha256 b),
  length-grow sha256 (add_new log (decode_bundle sha256 b)) bs,
)

grow-append :
    (sha256 : Bytes → Bytes) (log : List Msg) (bs cs : List Bytes)
    → grow sha256 log (bs ++ cs) ≡ grow sha256 (grow sha256 log bs) cs
unfolding grow
grow-append sha256 log [] cs = refl
grow-append sha256 log (b ∷ bs) cs = grow-append sha256 (add_new log (decode_bundle sha256 b)) bs cs

module _ (http_get : Bytes → Response) (sha256 : Bytes → Bytes) (now : ℤ) (n : Node) where
  -- The lines that are read, those of the first failing request included.
  unfoldable pub taken : List (List Bytes) → List Bytes
  taken [] = []
  taken (b ∷ bs) =
      (batch_lines http_get sha256 now n b).0
      ++ (if (batch_lines http_get sha256 now n b).1 then [] else taken bs)

  unfoldable pub fails : List (List Bytes) → Bool
  fails [] = false
  fails (b ∷ bs) = (batch_lines http_get sha256 now n b).1 || fails bs

  module _ (name : Bytes) where
    Ends-store :
        (log : List Msg) (m : Msg)
        → IsIndexable m
        → Fits (add_new log (ok m))
        → Ends (Synced log name) (store sha256 now m) (λ r. Synced (add_new log (ok m)) name)
    unfolding store add_new
    Ends-store log m v f = elim (Bool-cases (is_stored (latest m.msg_id 0 log))) [
      | inl e ↦ record {
        at = λ db (s, same).
            let stored = store_with-stored sha256 now db log m false s (rw e refl) in
            rw e (
              some already_exists,
              stored.0,
              (stored.1, name-store_with sha256 now m false db ∙ same),
            );
      }
      | inr e ↦ record {
        at = λ db (s, same).
            let fits = rw e at f in
            let done = rw e at (store_with-IsSynced sha256 now db log m false s v fits) in
            rw e (none, done.0, (done.1, name-store_with sha256 now m false db ∙ same));
      }
    ]

    Ends-decoded :
        (log : List Msg) (r : Result MsgError Msg)
        → ((m : Msg) → r ≡ ok m → IsIndexable m)
        → Fits (add_new log r)
        → Ends
            (Synced log name)
            (elim r [ err e ↦ pure tt | ok m ↦ (do e ← store sha256 now m; pure tt) ])
            (λ t. Synced (add_new log r) name)
    unfolding add_new
    Ends-decoded log (err e) v f = Ends-pure (Synced log name) _ tt (λ db s. s)
    Ends-decoded log (ok m) v f =
        Ends-bind (Synced log name) (λ r. Synced (add_new log (ok m)) name) _ _ _
          (Ends-store log m (v m refl) f) (λ r. Ends-pure _ _ tt (λ db s. s))

    Ends-store_line :
        (log : List Msg) (b : Bytes)
        → IsLine sha256 b
        → Fits (add_new log (decode_bundle sha256 b))
        → Ends
            (Synced log name)
            (store_line http_get sha256 now b)
            (λ t. Synced (add_new log (decode_bundle sha256 b)) name)
    unfolding store_line IsLine
    Ends-store_line log b v f = Ends-decoded log (decode_bundle sha256 b) v f

    Ends-store_lines :
        (log : List Msg) (bs : List Bytes)
        → All (IsLine sha256) bs
        → Fits (grow sha256 log bs)
        → Ends
            (Synced log name)
            (store_lines http_get sha256 now bs)
            (λ t. Synced (grow sha256 log bs) name)
    unfolding store_lines grow
    Ends-store_lines log [] v f = Ends-pure (Synced log name) _ tt (λ db s. s)
    Ends-store_lines log (b ∷ bs) v f =
        let log' = add_new log (decode_bundle sha256 b) in
        Ends-bind (Synced log name) (λ t. Synced log' name) (λ t. Synced (grow sha256 log' bs) name)
          _ _ (Ends-store_line log b v.0 (omega (arith, length-grow sha256 log' bs)))
          (λ t. Ends-store_lines log' bs v.1 f)

    Ends-request :
        (log : List Msg) (ls more : List Bytes) (failed : Bool) (rest : Exec Bool) (after : Bool)
        → All (IsLine sha256) (ls ++ (if failed then [] else more))
        → Fits (grow sha256 log (ls ++ (if failed then [] else more)))
        → (failed ≡ false
            → Ends
                (Synced (grow sha256 log ls) name)
                rest
                (λ r db. (r ≡ after) × Synced (grow sha256 (grow sha256 log ls) more) name db))
        → Ends
            (Synced log name)
            (do t ← store_lines http_get sha256 now ls; if failed then pure true else rest)
            (λ r db.
              (r ≡ (failed || after))
              × Synced (grow sha256 log (ls ++ (if failed then [] else more))) name db)
    Ends-request log ls more true rest after v f h = rw (append-nil ls) (
        Ends-bind (Synced log name) (λ t. Synced (grow sha256 log ls) name) _ _ _
          (Ends-store_lines log ls (All-append_left (IsLine sha256) ls [] v)
            (rw (append-nil ls) at f))
          (λ t. Ends-pure _ _ true (λ db s. (refl, s))))
    Ends-request log ls more false rest after v f h =
        let fits = rw (grow-append sha256 log ls more) at f in
        rw (grow-append sha256 log ls more) (
          Ends-bind (Synced log name) (λ t. Synced (grow sha256 log ls) name) _ _ _
            (Ends-store_lines log ls (All-append_left (IsLine sha256) ls more v)
              (omega (arith, length-grow sha256 (grow sha256 log ls) more)))
            (λ t. h refl))

    Ends-ask_batches :
        (log : List Msg) (bs : List (List Bytes))
        → All (IsLine sha256) (taken bs)
        → Fits (grow sha256 log (taken bs))
        → Ends
            (Synced log name)
            (ask_batches http_get sha256 now n bs)
            (λ failed db. (failed ≡ fails bs) × Synced (grow sha256 log (taken bs)) name db)
    unfolding ask_batches taken fails
    Ends-ask_batches log [] v f =
        Ends-pure (Synced log name) _ false (λ db s. (refl, unfold grow in s))
    Ends-ask_batches log (b ∷ bs) v f =
        let r = batch_lines http_get sha256 now n b in
        Ends-request log r.0 (taken bs) r.1 (ask_batches http_get sha256 now n bs) (fails bs) v f
          (λ e.
            Ends-ask_batches (grow sha256 log r.0) bs
              (All-append_right (IsLine sha256) r.0 (taken bs) (rw e at v))
              (let fits = rw (e, grow-append sha256 log r.0 (taken bs)) at f in fits))

    pub Ends-store_ids :
        (log : List Msg) (ids : List Bytes)
        → All (IsLine sha256) (taken (batches [] ids))
        → Fits (grow sha256 log (taken (batches [] ids)))
        → Ends (Synced log name) (store_ids http_get sha256 now n ids [] 0) (λ failed db.
          (failed ≡ fails (batches [] ids))
          × Synced (grow sha256 log (taken (batches [] ids))) name db)
    Ends-store_ids log ids v f =
        subst
          (λ m. Ends (Synced log name) m (λ failed db.
            (failed ≡ fails (batches [] ids))
            × Synced (grow sha256 log (taken (batches [] ids))) name db))
          (sym (store_ids-from http_get sha256 now n [] ids))
          (Ends-ask_batches log (batches [] ids) v f)

  -- Node.Store on files that hold a log, where every line that is read, up to the answer that fails, is
  -- refused by the decoder or gives a message that can be indexed, and the bundle file stays below 2^63
  -- bytes: it ends without a fault and reports whether a request failed, and the files hold the log with
  -- the messages of those lines, in their order, each unless its id is stored by then.
  pub store_ids-IsSynced :
      (db : Db) (log : List Msg) (ids : List Bytes)
      → IsSynced db log
      → All (IsLine sha256) (taken (batches [] ids))
      → Fits (grow sha256 log (taken (batches [] ids)))
      → ((store_ids http_get sha256 now n ids [] 0 db).0 ≡ ok (fails (batches [] ids)))
        × IsSynced
            (store_ids http_get sha256 now n ids [] 0 db).1
            (grow sha256 log (taken (batches [] ids)))
  store_ids-IsSynced db log ids s v f =
      let (r, e, (failed, kept)) = (Ends-store_ids db.name log ids v f).at db (s, refl) in
      (rw failed at e, kept.0)
