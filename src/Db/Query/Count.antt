-- ===== src/Db/Query/Count.antt =====
-- What `Skip` and `Count` of a query select among the messages that its filters let pass.
use ii_go.Base.{
  if◌then◌else◌, Bool-cases, drop, keep, Bytes, ℤ, pos, negsuc, is_neg, ℕ, zero, suc, ◌≡◌, refl,
  sym, ap, inl, inr, Bool, true, false, ◌&&◌, Option, List, [], ◌∷◌,
}
use ii_go.Db.Index.{MsgInfo}
use ii_go.Db.Query.{
  Query, fits, is_pos, count_match, Rows, ids, limit, custom_test, match_row, match_info,
}
use ii_go.Db.Query.Laws.{hits}

-- The query at a state of its counters.
abbrev at : Query → ℤ → ℤ → Query
at q s c = record q { skip = s; count = c }

-- All but the first elements.
abbrev pub skipped {ℓ} : {A : Type ℓ} → ℤ → List A → List A
skipped (pos n) l = drop n l
skipped (negsuc n) l = l

module _ (custom : Option (Query → MsgInfo → Bool)) where
  -- The filters of a query, without its counters.
  abbrev pub accepts : Query → Bytes × MsgInfo → Bool
  accepts q (id, info) = fits q info && custom_test custom q info

  abbrev pub accepted : Query → Rows → List Bytes
  accepted q rows = ids (keep (accepts q) rows)

  -- The query's own test does not look at the counters.
  pub record IsSteady (q : Query) : Type 0 where
    pub steady :
        (s c : ℤ) (info : MsgInfo) → custom_test custom (at q s c) info ≡ custom_test custom q info

  match-spent :
      (q : Query) (s : ℤ) (n : ℕ) (info : MsgInfo)
      → q.invert ≡ false
      → match_info custom info (at q s (negsuc n)) ≡ (false, at q s (negsuc n))
  unfolding match_info match_row
  match-spent q s n info i = rw i

  hits-spent :
      (q : Query) (s : ℤ) (n : ℕ) (rows : Rows)
      → q.invert ≡ false
      → hits custom (at q s (negsuc n)) rows ≡ []
  unfolding hits
  hits-spent q s n [] i = refl
  hits-spent q s n ((id, info) ∷ rows) i = rw (match-spent q s n info i) (hits-spent q s n rows i)

  match-at :
      (q : Query) (s : ℤ) (c : ℕ) (id : Bytes) (info : MsgInfo)
      → q.invert ≡ false
      → IsSteady q
      → match_info custom info (at q s (pos c)) ≡ (
          if accepts q (id, info)
          then count_match true (at q s (pos c))
          else (false, at q s (pos c)))
  unfolding match_info match_row count_match
  match-at q s c id info i st =
      let same : fits (at q s (pos c)) info ≡ fits q info = unfold fits in refl in
      let own = st.steady s (pos c) info in
      elim (Bool-cases (fits q info)) [
        | inl f ↦ elim (Bool-cases (custom_test custom q info)) [
          | inl t ↦ rw (same, f, own, t, i)
          | inr n ↦ rw (same, f, own, n, i)
        ]
        | inr n ↦ rw (same, n, i)
      ]

  hits-count :
      (q : Query) (s : ℤ) (c : ℕ) (rows : Rows)
      → q.invert ≡ false
      → IsSteady q
      → is_pos s ≡ false
      → hits custom (at q s (pos c)) rows ≡ limit (pos c) (accepted q rows)
  unfolding hits count_match
  hits-count q s zero [] i st p = refl
  hits-count q s (suc c) [] i st p = refl
  hits-count q s zero ((id, info) ∷ rows) i st p = elim (Bool-cases (accepts q (id, info))) [
    | inl a ↦
        rw (match-at q s zero id info i st, a, p)
          (ap (λ l. id ∷ l) (hits-count q s zero rows i st p))
    | inr r ↦ rw (match-at q s zero id info i st, r) (hits-count q s zero rows i st p)
  ]
  hits-count q s (suc zero) ((id, info) ∷ rows) i st p = elim (Bool-cases (accepts q (id, info))) [
    | inl a ↦ rw (match-at q s 1 id info i st, a, p) (ap (λ l. id ∷ l) (hits-spent q s 0 rows i))
    | inr r ↦ rw (match-at q s 1 id info i st, r) (hits-count q s 1 rows i st p)
  ]
  hits-count q s (suc (suc c)) ((id, info) ∷ rows) i st p =
      elim (Bool-cases (accepts q (id, info))) [
        | inl a ↦
            rw (match-at q s (suc (suc c)) id info i st, a, p)
              (ap (λ l. id ∷ l) (hits-count q s (suc c) rows i st p))
        | inr r ↦
            rw (match-at q s (suc (suc c)) id info i st, r)
              (hits-count q s (suc (suc c)) rows i st p)
      ]

  limit-nil : (c : ℕ) → limit {A = Bytes} (pos c) [] ≡ []
  limit-nil zero = refl
  limit-nil (suc c) = refl

  hits-skip :
      (q : Query) (s c : ℕ) (rows : Rows)
      → q.invert ≡ false
      → IsSteady q
      → hits custom (at q (pos s) (pos c)) rows ≡ limit (pos c) (drop s (accepted q rows))
  unfolding hits count_match
  hits-skip q zero c rows i st = hits-count q (pos 0) c rows i st refl
  hits-skip q (suc s) c [] i st = sym (limit-nil c)
  hits-skip q (suc s) c ((id, info) ∷ rows) i st = elim (Bool-cases (accepts q (id, info))) [
    | inl a ↦ rw (match-at q (pos (suc s)) c id info i st, a) (hits-skip q s c rows i st)
    | inr r ↦ rw (match-at q (pos (suc s)) c id info i st, r) (hits-skip q (suc s) c rows i st)
  ]

  hits-at :
      (q : Query) (s c : ℤ) (rows : Rows)
      → q.invert ≡ false
      → is_neg c ≡ false
      → IsSteady q
      → hits custom (at q s c) rows ≡ limit c (skipped s (accepted q rows))
  hits-at q (pos s) (pos c) rows i p st = hits-skip q s c rows i st
  hits-at q (negsuc s) (pos c) rows i p st = hits-count q (negsuc s) c rows i st refl
  hits-at q s (negsuc c) rows i p st = cc

  -- For a query that is not inverted, has no negative `Count`, and whose own test, if any, does not look
  -- at `Skip` and `Count`, the matching messages are those
  -- that its filters accept, less the first `Skip`, and at most `Count` of these if that is positive.
  pub hits-accepted :
      (q : Query) (rows : Rows)
      → q.invert ≡ false
      → is_neg q.count ≡ false
      → IsSteady q
      → hits custom q rows ≡ limit q.count (skipped q.skip (accepted q rows))
  hits-accepted q rows i p st = hits-at q q.skip q.count rows i p st
