-- ===== src/Dict.antt =====
-- Go's `map[string]V` as an association list with one entry per key, in order of insertion. The
-- order shows only where the program ranges over a map.
use ii_go.Base.{
  Bool-cases, All, inl, inr, false, ◌∙◌, if◌then◌else◌, Bytes, str_eq, str_eq_refl, str_eq_iff, ◌≡◌,
  refl, Option, none, some, List, [], ◌∷◌, ◌++◌, arith,
}

module _ {ℓ} {V : Type ℓ} where
  -- m[k]
  unfoldable pub get : List (Bytes × V) → Bytes → Option V
  get [] k = none
  get ((j, v) ∷ m) k = if str_eq j k then some v else get m k

  -- m[k] = v
  unfoldable pub put : List (Bytes × V) → Bytes → V → List (Bytes × V)
  put [] k v = (k, v) ∷ []
  put ((j, w) ∷ m) k v = if str_eq j k then (j, v) ∷ m else (j, w) ∷ put m k v

  -- delete(m, k)
  unfoldable pub delete : List (Bytes × V) → Bytes → List (Bytes × V)
  delete [] k = []
  delete ((j, w) ∷ m) k = let rest = delete m k in if str_eq j k then rest else (j, w) ∷ rest

  pub get-put :
      (m : List (Bytes × V)) (k j : Bytes) (v : V)
      → get (put m k v) j ≡ (if str_eq k j then some v else get m j)
  unfolding get put
  get-put [] k j v = refl
  get-put ((i, w) ∷ m) k j v =
      ground (arith, str_eq_iff k j, str_eq_iff i k, str_eq_iff i j, get-put m k j v)

  pub get-put_self : (m : List (Bytes × V)) (k : Bytes) (v : V) → get (put m k v) k ≡ some v
  get-put_self m k v = simp (get-put, str_eq_refl)

  -- A key that is new goes to the end.
  pub put_new :
      (m : List (Bytes × V)) (k : Bytes) (v : V) → get m k ≡ none → put m k v ≡ m ++ (k, v) ∷ []
  unfolding get put
  put_new [] k v h = refl
  put_new ((i, w) ∷ m) k v h = ground (arith, put_new m k v)

  pub get-delete :
      (m : List (Bytes × V)) (k j : Bytes)
      → get (delete m k) j ≡ (if str_eq k j then none else get m j)
  unfolding get delete
  get-delete [] k j = ground arith
  get-delete ((i, w) ∷ m) k j =
      ground (arith, str_eq_iff k j, str_eq_iff i k, str_eq_iff i j, get-delete m k j)

  -- Every key stands once.
  unfoldable pub IsMap : List (Bytes × V) → Type ℓ
  IsMap [] = Unit
  IsMap ((k, v) ∷ m) = (get m k ≡ none) × IsMap m

  get-put_other :
      (m : List (Bytes × V)) (k j : Bytes) (v : V)
      → str_eq k j ≡ false
      → get m j ≡ none
      → get (put m k v) j ≡ none
  get-put_other m k j v d e = get-put m k j v ∙ rw d e

  pub put-IsMap : (m : List (Bytes × V)) (k : Bytes) (v : V) → IsMap m → IsMap (put m k v)
  unfolding IsMap put
  put-IsMap [] k v h = (unfold get in refl, tt)
  put-IsMap ((j, w) ∷ m) k v h = elim (Bool-cases (str_eq j k)) [
    | inl same ↦ rw same h
    | inr other ↦ rw other (
      get-put_other m k j v (ground (arith, str_eq_iff j k, str_eq_iff k j)) h.0,
      put-IsMap m k v h.1,
    )
  ]

  -- What holds of all values that are found holds of all entries.
  pub IsMap-All :
      (P : V → Type 0) (m : List (Bytes × V))
      → IsMap m
      → ((k : Bytes) (v : V) → get m k ≡ some v → P v)
      → All (λ (r : Bytes × V). P r.1) m
  unfolding IsMap get
  IsMap-All P [] d h = tt
  IsMap-All P ((j, w) ∷ m) d h = (
    h j w (rw (str_eq_refl j)),
    IsMap-All P m d.1 (λ k v e. elim (Bool-cases (str_eq j k)) [
      | inl same ↦ absurd (cc (d.0, e, (str_eq_iff j k).0 same))
      | inr other ↦ h k v (rw other e)
    ]),
  )
