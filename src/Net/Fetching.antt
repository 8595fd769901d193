-- ===== src/Net/Fetching.antt =====
-- ii/net.go: Fetcher, and what the database has afterwards.
use ii_go.Base.{
  Bool-cases, All, Bytes, codes, ℤ, pos, negsuc, is_neg, ok, ◌≡◌, refl, sym, ◌⊎◌, inl, inr, true,
  false, Option, some, List, [], ◌∷◌, arith,
}
use ii_go.Strings.{contains}
use ii_go.Msg.Encode.{Msg}
use ii_go.Msg.Valid.{is_msg_id}
use ii_go.Db.Access.{exists}
use ii_go.Db.State.Ends.{Ends, Ends-pure, Ends-bind, Ends-if, Ends-known, Ends-imp}
use ii_go.Db.Log.{IsSynced, latest, is_stored}
use ii_go.Db.Log.Keeps.{Synced}
use ii_go.Net.{
  Response, http_req_lines, Node, negated, is_feature, area_url, slice, absent, http_get_id,
  store_ids, needs_sync, found_limit, new_ids, ids_url, fetch_ids, fetch_needed, fetcher,
}
use ii_go.Net.Storing.{grow, IsLine, Fits, taken, fails, Ends-store_ids}
use ii_go.Db.State.{Db, ◌>>=◌, pure}
use ii_go.Net.Batches.{batches}
use ii_go.Net.Adaptive.{IsLimit, IsLimit-unique, Ends-adaptive}
use ii_go.Net.Missing.{missing, Ends-exists, brings, is_stored-has, has-grow, Ends-new_ids}

module _ (http_get : Bytes → Response) (sha256 : Bytes → Bytes) (now : ℤ) (n : Node) where
  -- What a node gives for the ids that a log lacks.
  abbrev pub given : List Msg → List Bytes → List Bytes
  given log ls = taken http_get sha256 now n (batches [] (missing log ls))

  -- A list of ids, and what the node gives for those that the log lacks: all requests succeed, every
  -- line that is read is refused by the decoder or can be indexed, each of those ids comes, and all fits.
  pub record IsHonest (log : List Msg) (url : Bytes) (ls : List Bytes) : Type 0 where
    pub listed : http_req_lines (http_get url) ≡ (ls, false)
    pub whole : fails http_get sha256 now n (batches [] (missing log ls)) ≡ false
    pub lines : All (IsLine sha256) (given log ls)
    pub all_come : All (λ id. brings sha256 id (given log ls) ≡ true) (missing log ls)
    pub fits : Fits (grow sha256 log (given log ls))

  -- Every line of the list is no id or that of a stored message.
  abbrev pub HasAll : List Bytes → List Msg → Type 0
  HasAll ls log = All (λ l. (contains l b'.' ≡ true) ⊎ (is_stored (latest l 0 log) ≡ true)) ls

  HasAll-grow :
      (log : List Msg) (more ls : List Bytes)
      → All (λ id. brings sha256 id more ≡ true) (missing log ls)
      → HasAll ls (grow sha256 log more)
  unfolding missing
  HasAll-grow log more [] h = tt
  HasAll-grow log more (l ∷ ls) h = elim (Bool-cases (contains l b'.')) [
    | inl e ↦ (inl e, HasAll-grow log more ls (rw e at h))
    | inr e ↦ elim (Bool-cases (is_stored (latest l 0 log))) [
      | inl old ↦ (
        inr (
            ground (
              arith,
              is_stored-has l 0 (grow sha256 log more),
              has-grow sha256 l log more,
              is_stored-has l 0 log,
            )),
        HasAll-grow log more ls (rw (e, old) at h),
      )
      | inr new ↦
          let come = rw (e, new) at h in
          (
            inr (
                ground (
                  arith,
                  is_stored-has l 0 (grow sha256 log more),
                  has-grow sha256 l log more,
                  come.0,
                )),
            HasAll-grow log more ls come.1,
          )
    ]
  ]

  module _ (log : List Msg) (name : Bytes) (ls : List Bytes) where
    abbrev Fetched : Unit {0} → Db → Type 0
    Fetched t db =
        IsSynced db (grow sha256 log (given log ls)) × HasAll ls (grow sha256 log (given log ls))

    Ends-fetch_ids :
        (echo : Bytes) (limit : ℤ)
        → IsHonest log (ids_url http_get sha256 now n echo limit) ls
        → Ends (Synced log name) (fetch_ids http_get sha256 now n echo limit) Fetched
    unfolding fetch_ids
    Ends-fetch_ids echo limit h = rw h.listed (
        Ends-bind (Synced log name) _ Fetched (new_ids http_get sha256 now ls) _
          (Ends-new_ids http_get sha256 now log name ls)
          (λ ids.
            Ends-known (λ is. store_ids http_get sha256 now n is [] 0 >>= (λ s. pure tt))
              (missing log ls) ids
              (Ends-bind (Synced log name) _ Fetched _ _
                (Ends-store_ids http_get sha256 now n name log (missing log ls) h.lines h.fits)
                (λ r.
                  Ends-pure _ Fetched tt
                    (λ db (e, s). (s.0, HasAll-grow log (given log ls) ls h.all_come))))))

  -- The last id of an area that the node names, if its answer can be read.
  abbrev pub last_id : Bytes → Option Bytes
  last_id echo = http_get_id (http_get (slice (area_url n echo) (negsuc 0) (codes "1")))

  -- Fetcher goes on: in force mode, or if the last id of the area is valid and the log lacks it.
  abbrev pub IsDue : List Msg → Bytes → Type 0
  IsDue log echo =
      (n.force ≡ true)
      ⊎ ((n.force ≡ false)
          × ((id : Bytes) × (last_id echo ≡ some id)
              × (is_msg_id id ≡ true)
              × (is_stored (latest id 0 log) ≡ false)))

  -- The limit that an area is asked with: the given one, or for a negative one that of the adaptive mode.
  abbrev pub Limits : List Msg → Bytes → ℤ → ℤ → Type 0
  Limits log echo limit z =
      ((is_neg limit ≡ false) × (z ≡ limit))
      ⊎ ((is_neg limit ≡ true) × IsLimit http_get sha256 now n log echo 17 (negated limit) z)

  -- Fetcher asks for the ids of an area with a limit: with none if the node has no slices, and else if the
  -- area is due.
  unfoldable pub Asks : List Msg → Bytes → ℤ → ℤ → Type 0
  Asks log echo limit z =
      ((is_feature n (codes "u/e") ≡ false) × (z ≡ pos 0))
      ⊎ ((is_feature n (codes "u/e") ≡ true) × IsDue log echo × Limits log echo limit z)

  module _ (log : List Msg) (name : Bytes) (echo : Bytes) (limit : ℤ) where
    Ends-needs_sync :
        IsDue log echo
        → Ends
            (Synced log name)
            (needs_sync http_get sha256 now n echo)
            (λ b db. Synced log name db × (b ≡ true))
    unfolding needs_sync
    Ends-needs_sync (inl f) =
        Ends-if (Synced log name) _ n.force _ _
          (λ e. Ends-pure (Synced log name) _ true (λ db s. (s, refl))) (λ e. cc)
    Ends-needs_sync (inr (f, (id, last, good, lacked))) =
        rw (needs_sync, f, last, good)
          (Ends-bind (Synced log name) _ _ (exists sha256 id) _
            (Ends-exists http_get sha256 now log name id)
            (λ o. Ends-pure _ _ (absent o) (λ db (s, e). (s, rw (e, lacked) refl))))

    Ends-found_limit :
        (z : ℤ)
        → Limits log echo limit z
        → Ends
            (Synced log name)
            (found_limit http_get sha256 now n echo limit)
            (λ found db. Synced log name db × (found ≡ z))
    unfolding found_limit
    Ends-found_limit z (inl (p, e)) =
        rw p (Ends-pure (Synced log name) _ limit (λ db s. (s, sym e)))
    Ends-found_limit z (inr (p, l)) = rw p (
        Ends-imp
          (λ found db (s, h).
            (s, IsLimit-unique http_get sha256 now n log echo 17 (negated limit) found z h l))
          (Ends-adaptive http_get sha256 now n log name echo 17 (negated limit)))

    Ends-fetcher :
        (ls : List Bytes) (z : ℤ)
        → Asks log echo limit z
        → IsHonest log (ids_url http_get sha256 now n echo z) ls
        → Ends (Synced log name) (fetcher http_get sha256 now n echo limit) (Fetched log name ls)
    unfolding Asks fetcher fetch_needed
    Ends-fetcher ls z (inl (old, e)) h =
        rw (fetcher, old, ← e) (Ends-fetch_ids log name ls echo z h)
    Ends-fetcher ls z (inr (new, due, l)) h =
        rw (fetcher, new)
          (Ends-bind (Synced log name) _ (Fetched log name ls) _ _ (Ends-needs_sync due) (λ b.
            Ends-known (fetch_needed http_get sha256 now n echo limit) true b (
              Ends-bind (Synced log name) _ (Fetched log name ls) _ _ (Ends-found_limit z l)
                (λ found.
                  Ends-known (fetch_ids http_get sha256 now n echo) z found
                    (Ends-fetch_ids log name ls echo z h)))))

  -- Fetcher on files that hold a log, for a node without slices, in force mode, or when the last id that the node
  -- names for the area is valid and not stored: where the node is honest about the list that Fetcher asks it for
  -- (with the given limit, or that of the adaptive mode for a negative one, or none), it ends without a fault, the
  -- files hold the log with the new messages that came, and every id of the list is stored.
  pub fetcher-HasAll :
      (db : Db) (log : List Msg) (ls : List Bytes) (echo : Bytes) (limit z : ℤ)
      → IsSynced db log
      → Asks log echo limit z
      → IsHonest log (ids_url http_get sha256 now n echo z) ls
      → ((fetcher http_get sha256 now n echo limit db).0 ≡ ok tt)
        × IsSynced (fetcher http_get sha256 now n echo limit db).1 (grow sha256 log (given log ls))
        × HasAll ls (grow sha256 log (given log ls))
  fetcher-HasAll db log ls echo limit z s a h =
      let (t, e, (kept, all)) = (Ends-fetcher log db.name echo limit ls z a h).at db (s, refl) in
      (e, kept, all)
