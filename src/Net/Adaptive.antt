-- ===== src/Net/Adaptive.antt =====
-- ii/net.go: the adaptive mode of Fetcher.
use ii_go.Base.{
  Option-cases, Bytes, codes, ℤ, pos, neg, is_neg, ok, ℕ, zero, suc, ◌<◌, ◌≡◌, sym, ◌∙◌, refl, ◌⊎◌,
  inl, inr, Bool, true, false, not, Option, none, some, List, arith,
}
use ii_go.Msg.Encode.{Msg}
use ii_go.Db.State.Ends.{Ends, Ends-pure, Ends-bind, Ends-if, Ends-imp, Ends-given}
use ii_go.Db.Access.{exists}
use ii_go.Db.Log.{IsSynced, latest, is_stored}
use ii_go.Db.Log.Keeps.{Synced}
use ii_go.Net.{
  Response, http_get_id, negated, doubled, Node, area_url, slice, absent, adaptive, found_limit,
}
use ii_go.Db.State.{Db}
use ii_go.Msg.Valid.{is_msg_id}
use ii_go.Net.Missing.{Ends-exists}

module _ (http_get : Bytes → Response) (sha256 : Bytes → Bytes) (now : ℤ) (n : Node) where
  -- The limit after some doublings.
  abbrev pub doubled_times : ℕ → ℤ → ℤ
  doubled_times zero limit = limit
  doubled_times (suc k) limit = doubled_times k (doubled limit)

  -- The id that the node gives at a limit.
  abbrev pub id_at : Bytes → ℤ → Option Bytes
  id_at echo limit = http_get_id (http_get (slice (area_url n echo) (negated limit) (codes "1")))

  -- At a limit the node gives a valid id, which the log has or lacks.
  abbrev pub GivesId : List Msg → Bytes → Bool → ℤ → Type 0
  GivesId log echo stored limit =
      (id : Bytes) × (id_at echo limit ≡ some id)
      × (is_msg_id id ≡ true)
      × (is_stored (latest id 0 log) ≡ stored)

  -- At a limit the node gives no valid id.
  abbrev pub GivesNone : Bytes → ℤ → Type 0
  GivesNone echo limit =
      (id_at echo limit ≡ none)
      ⊎ ((id : Bytes) × (id_at echo limit ≡ some id) × (is_msg_id id ≡ false))

  -- At a limit and its doublings, as many of them, the node gives ids that the log lacks.
  abbrev pub Passes : List Msg → Bytes → ℕ → ℤ → Type 0
  Passes log echo zero limit = Unit
  Passes log echo (suc k) limit = GivesId log echo false limit × Passes log echo k (doubled limit)

  -- What the adaptive mode ends with: the first limit at which the id is stored, behind those at which it is not;
  -- or 0, where the node gives no valid id behind them, or all the limits were tried.
  pub data IsLimit (log : List Msg) (echo : Bytes) (tries : ℕ) (limit : ℤ) : ℤ → Type 0 where
    known :
        (k : ℕ)
        → k < tries
        → Passes log echo k limit
        → GivesId log echo true (doubled_times k limit)
        → IsLimit log echo tries limit (doubled_times k limit)
    no_id :
        (k : ℕ)
        → k < tries
        → Passes log echo k limit
        → GivesNone echo (doubled_times k limit)
        → IsLimit log echo tries limit (pos 0)
    all_new : Passes log echo tries limit → IsLimit log echo tries limit (pos 0)

  IsLimit-later :
      (log : List Msg) (echo : Bytes) (tries : ℕ) (limit z : ℤ)
      → GivesId log echo false limit
      → IsLimit log echo tries (doubled limit) z
      → IsLimit log echo (suc tries) limit z
  IsLimit-later log echo tries limit z g (known k b ps h) = known (suc k) (omega arith) (g, ps) h
  IsLimit-later log echo tries limit z g (no_id k b ps h) = no_id (suc k) (omega arith) (g, ps) h
  IsLimit-later log echo tries limit z g (all_new ps) = all_new (g, ps)

  -- What the first try decides.
  data First (log : List Msg) (echo : Bytes) (tries : ℕ) (limit : ℤ) : ℤ → Type 0 where
    stops : GivesNone echo limit → First log echo tries limit (pos 0)
    takes : GivesId log echo true limit → First log echo tries limit limit
    later :
        {z : ℤ}
        → GivesId log echo false limit
        → IsLimit log echo tries (doubled limit) z
        → First log echo tries limit z

  first :
      (log : List Msg) (echo : Bytes) (tries : ℕ) (limit z : ℤ)
      → IsLimit log echo (suc tries) limit z
      → First log echo tries limit z
  first log echo tries limit z (known zero b ps h) = takes h
  first log echo tries limit z (known (suc k) b (g, ps) h) = later g (known k (omega arith) ps h)
  first log echo tries limit z (no_id zero b ps h) = stops h
  first log echo tries limit z (no_id (suc k) b (g, ps) h) = later g (no_id k (omega arith) ps h)
  first log echo tries limit z (all_new (g, ps)) = later g (all_new ps)

  none-is_id :
      (log : List Msg) (echo : Bytes) (b : Bool) (limit : ℤ)
      → GivesNone echo limit
      → GivesId log echo b limit
      → ⊥
  none-is_id log echo b limit (inl e) (id, f, good, h) = cc
  none-is_id log echo b limit (inr (i, e, bad)) (id, f, good, h) =
      let same : some i ≡ some id = sym e ∙ f in cc

  stored-lacked :
      (log : List Msg) (echo : Bytes) (limit : ℤ)
      → GivesId log echo true limit
      → GivesId log echo false limit
      → ⊥
  stored-lacked log echo limit (i, e, g, h) (j, f, k, l) =
      let same : some i ≡ some j = sym e ∙ f in cc

  first_unique :
      (log : List Msg) (echo : Bytes) (tries : ℕ) (limit y z : ℤ)
      → (IsLimit log echo tries (doubled limit) y
          → IsLimit log echo tries (doubled limit) z
          → y ≡ z)
      → First log echo tries limit y
      → First log echo tries limit z
      → y ≡ z
  first_unique log echo tries limit y z ih (stops a) (stops b) = refl
  first_unique log echo tries limit y z ih (stops a) (takes b) =
      absurd (none-is_id log echo true limit a b)
  first_unique log echo tries limit y z ih (stops a) (later b l) =
      absurd (none-is_id log echo false limit a b)
  first_unique log echo tries limit y z ih (takes a) (stops b) =
      absurd (none-is_id log echo true limit b a)
  first_unique log echo tries limit y z ih (takes a) (takes b) = refl
  first_unique log echo tries limit y z ih (takes a) (later b l) =
      absurd (stored-lacked log echo limit a b)
  first_unique log echo tries limit y z ih (later a k) (stops b) =
      absurd (none-is_id log echo false limit b a)
  first_unique log echo tries limit y z ih (later a k) (takes b) =
      absurd (stored-lacked log echo limit b a)
  first_unique log echo tries limit y z ih (later a k) (later b l) = ih k l

  no_tries :
      (log : List Msg) (echo : Bytes) (limit z : ℤ) → IsLimit log echo zero limit z → z ≡ pos 0
  no_tries log echo limit z (known k b ps h) = absurd (omega arith)
  no_tries log echo limit z (no_id k b ps h) = refl
  no_tries log echo limit z (all_new ps) = refl

  -- The adaptive mode cannot end with two limits.
  pub IsLimit-unique :
      (log : List Msg) (echo : Bytes) (tries : ℕ) (limit y z : ℤ)
      → IsLimit log echo tries limit y
      → IsLimit log echo tries limit z
      → y ≡ z
  IsLimit-unique log echo zero limit y z u v =
      no_tries log echo limit y u ∙ sym (no_tries log echo limit z v)
  IsLimit-unique log echo (suc tries) limit y z u v =
      first_unique log echo tries limit y z (IsLimit-unique log echo tries (doubled limit) y z)
        (first log echo tries limit y u) (first log echo tries limit z v)

  pub Ends-adaptive :
      (log : List Msg) (name echo : Bytes) (tries : ℕ) (limit : ℤ)
      → Ends
          (Synced log name)
          (adaptive http_get sha256 now n echo tries limit)
          (λ z db. Synced log name db × IsLimit log echo tries limit z)
  unfolding adaptive
  Ends-adaptive log name echo zero limit =
      Ends-pure (Synced log name) _ (pos 0) (λ db s. (s, all_new tt))
  Ends-adaptive log name echo (suc tries) limit = elim (Option-cases (id_at echo limit)) [
    | inl e ↦
        rw (adaptive, e)
          (Ends-pure (Synced log name) _ (pos 0) (λ db s. (s, no_id 0 (omega arith) tt (inl e))))
    | inr (id, e) ↦
        rw (adaptive, e)
          (Ends-if (Synced log name) _ (not (is_msg_id id)) _ _
            (λ bad.
              Ends-pure (Synced log name) _ (pos 0)
                (λ db s. (s, no_id 0 (omega arith) tt (inr (id, e, ground arith)))))
            (λ good.
              Ends-bind (Synced log name) _ _ (exists sha256 id) _
                (Ends-exists http_get sha256 now log name id)
                (λ o.
                  Ends-if _ _ (absent o) _ _
                    (λ new. Ends-given _ (λ lacked.
                      Ends-imp
                        (λ z db (s, h). (
                          s,
                          IsLimit-later log echo tries limit z (id, e, ground arith, ground arith)
                              h,
                        ))
                        (Ends-adaptive log name echo tries (doubled limit))))
                    (λ old. Ends-pure _ _ limit (λ db (s, had).
                      (s, known 0 (omega arith) tt (id, e, ground arith, ground arith)))))))
  ]

  -- The adaptive mode of Fetcher on files that hold a log ends without a fault and leaves the log as it is. Of
  -- the given limit, its sign turned, and its first 16 doublings it takes the first one at which the node gives
  -- no valid id or one that is stored: its limit is that one if the id is stored, and 0 otherwise or if there is none.
  pub found_limit-IsLimit :
      (db : Db) (log : List Msg) (echo : Bytes) (limit : ℤ)
      → IsSynced db log
      → is_neg limit ≡ true
      → (z : ℤ) × ((found_limit http_get sha256 now n echo limit db).0 ≡ ok z)
        × IsSynced (found_limit http_get sha256 now n echo limit db).1 log
        × IsLimit log echo 17 (negated limit) z
  unfolding found_limit
  found_limit-IsLimit db log echo limit s neg =
      let (z, e, (kept, h)) = (Ends-adaptive log db.name echo 17 (negated limit)).at db (s, refl) in
      rw neg (z, e, kept.0, h)
