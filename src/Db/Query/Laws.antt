-- ===== src/Db/Query/Laws.antt =====
-- SelectIDS: which slice of the matching messages it returns, and what `Skip` and `Count` select.
use mathlib.Core.List.{reverse_aux}
use ii_go.Base.{
  leb, ◌==◌, if◌then◌else◌, Bool-cases, length, take, drop, drop_nil, length-append, Bytes, ℤ, pos,
  negsuc, is_neg, abs, ℕ, zero, suc, ◌+◌, ◌-◌, ◌≡◌, refl, sym, ap, ◌∙◌, inl, inr, Bool, true, false,
  Option, List, [], ◌∷◌, ◌++◌, reverse, append_assoc, append-nil, arith,
}
use ii_go.Db.Index.{MsgInfo}
use ii_go.Db.Query.{
  Query, is_pos, Rows, limit, is_full, match_info, select_back, select_front, select_rows,
}

-- What is left to collect from the front.
room : ℤ → List Bytes → List Bytes → List Bytes
room lim resp l = if is_pos lim then take (abs lim - length resp) l else l

take_nil : (n : ℕ) → take {A = Bytes} n [] ≡ []
take_nil zero = refl
take_nil (suc n) = refl

room-nil : (lim : ℤ) (resp : List Bytes) → room lim resp [] ≡ []
unfolding room
room-nil (pos zero) resp = refl
room-nil (pos (suc n)) resp = take_nil (suc n - length resp)
room-nil (negsuc n) resp = refl

nothing_full : (lim : ℤ) → is_full lim [] ≡ false
nothing_full (pos zero) = refl
nothing_full (pos (suc n)) = ground arith
nothing_full (negsuc n) = refl

room-limit : (lim : ℤ) (l : List Bytes) → room lim [] l ≡ limit lim l
unfolding room
room-limit (pos zero) l = refl
room-limit (pos (suc n)) l = let whole : suc n - 0 ≡ suc n = omega arith in ap (λ k. take k l) whole
room-limit (negsuc n) l = refl

fits_one :
    (n : ℕ) (resp : List Bytes) (id : Bytes)
    → leb (suc n) (length resp) ≡ false
    → leb (suc n) (length (resp ++ id ∷ [])) ≡ true
    → suc n - length resp ≡ 1
fits_one n resp id h e = ground (arith, length-append resp (id ∷ []))

fits_more :
    (n : ℕ) (resp : List Bytes) (id : Bytes)
    → leb (suc n) (length resp) ≡ false
    → suc n - length resp ≡ suc (suc n - length (resp ++ id ∷ []))
fits_more n resp id h = ground (arith, length-append resp (id ∷ []))

room-full :
    (lim : ℤ) (resp : List Bytes) (id : Bytes) (l : List Bytes)
    → is_full lim resp ≡ false
    → is_full lim (resp ++ id ∷ []) ≡ true
    → room lim resp (id ∷ l) ≡ id ∷ []
unfolding room
room-full (pos zero) resp id l h e = cc
room-full (pos (suc n)) resp id l h e = rw (fits_one n resp id h e)
room-full (negsuc n) resp id l h e = cc

room-more :
    (lim : ℤ) (resp : List Bytes) (id : Bytes) (l : List Bytes)
    → is_full lim resp ≡ false
    → room lim resp (id ∷ l) ≡ id ∷ room lim (resp ++ id ∷ []) l
unfolding room
room-more (pos zero) resp id l h = refl
room-more (pos (suc n)) resp id l h = rw (fits_more n resp id h)
room-more (negsuc n) resp id l h = refl

abs-neg : (z : ℤ) → is_neg z ≡ true → (k : ℕ) × (abs z ≡ suc k)
abs-neg (pos n) h = cc
abs-neg (negsuc n) h = (n, refl)

module _ (custom : Option (Query → MsgInfo → Bool)) where
  -- The ids of the rows that match, as Match goes over them one after the other.
  unfoldable pub hits : Query → Rows → List Bytes
  hits q [] = []
  hits q ((id, info) ∷ rows) =
      let (matched, q') = match_info custom info q in
      let rest = hits q' rows in if matched then id ∷ rest else rest

  select_back_lem :
      (start found k : ℕ) (resp : List Bytes) (q : Query) (rows : Rows)
      → start ≡ found + suc k
      → select_back custom start found resp q rows ≡ reverse_aux (take (suc k) (hits q rows)) resp
  unfolding select_back hits
  select_back_lem start found k resp q [] h = refl
  select_back_lem start found zero resp q ((id, info) ∷ rows) h =
      let here : (suc found == start) ≡ true = ground arith in
      elim (Bool-cases (match_info custom info q).0) [
        | inl m ↦ rw (m, here)
        | inr n ↦ rw n (select_back_lem start found zero resp (match_info custom info q).1 rows h)
      ]
  select_back_lem start found (suc k) resp q ((id, info) ∷ rows) h =
      let q' = (match_info custom info q).1 in
      let later : (suc found == start) ≡ false = ground arith in
      let h' : start ≡ suc found + suc k = omega arith in
      elim (Bool-cases (match_info custom info q).0) [
        | inl m ↦ rw (m, later) (select_back_lem start (suc found) k (id ∷ resp) q' rows h')
        | inr n ↦ rw n (select_back_lem start found (suc k) resp q' rows h)
      ]

  select_front_lem :
      (start : ℕ) (lim : ℤ) (found : ℕ) (resp : List Bytes) (q : Query) (rows : Rows)
      → is_full lim resp ≡ false
      → select_front custom start lim found resp q rows
        ≡ resp ++ room lim resp (drop (start - found) (hits q rows))
  unfolding select_front hits
  select_front_lem start lim found resp q [] h =
      rw (drop_nil {A = Bytes} (start - found), room-nil lim resp) (sym (append-nil resp))
  select_front_lem start lim found resp q ((id, info) ∷ rows) h =
      let q' = (match_info custom info q).1 in
      elim (Bool-cases (match_info custom info q).0) [
        | inl m ↦ elim (Bool-cases (leb start found)) [
          | inl le ↦
              let now : start - found ≡ 0 = ground arith in
              let next : start - suc found ≡ 0 = omega (arith, now) in
              let rest = hits q' rows in
              elim (Bool-cases (is_full lim (resp ++ id ∷ []))) [
                | inl full ↦ rw (m, le, full, now, room-full lim resp id rest h full)
                | inr more ↦
                    rw (m, le, more, now, room-more lim resp id rest h)
                      (select_front_lem start lim (suc found) (resp ++ id ∷ []) q' rows more
                        ∙ ap (λ n. (resp ++ id ∷ []) ++ room lim (resp ++ id ∷ []) (drop n rest))
                            next
                        ∙ append_assoc resp (id ∷ []) _)
              ]
          | inr gt ↦
              let step : start - found ≡ suc (start - suc found) = ground arith in
              rw (m, gt, h, step) (select_front_lem start lim (suc found) resp q' rows h)
        ]
        | inr n ↦ rw n (select_front_lem start lim found resp q' rows h)
      ]

  -- SelectIDS returns a slice of the matching ids: for `Start` ≥ 0 those after the first `Start`, for
  -- `Start` < 0 the last -`Start`, in the order of the index and matched from its end; of these the
  -- first `Lim`, if that is positive.
  pub select_rows-hits :
      (q : Query) (rows : Rows)
      → select_rows custom q rows
        ≡ limit q.lim (
            if is_neg q.start
            then reverse (take (abs q.start) (hits q (reverse rows)))
            else drop (abs q.start) (hits q rows))
  unfolding select_rows
  select_rows-hits q rows =
      let whole : abs q.start - 0 ≡ abs q.start = omega arith in
      elim (Bool-cases (is_neg q.start)) [
        | inl back ↦
            let (k, last) = abs-neg q.start back in
            let from_zero : suc k ≡ 0 + suc k = omega arith in
            rw (back, last)
              (ap (limit q.lim) (select_back_lem (suc k) 0 k [] q (reverse rows) from_zero))
        | inr front ↦ rw front (
            select_front_lem (abs q.start) q.lim 0 [] q rows (nothing_full q.lim)
            ∙ room-limit q.lim (drop (abs q.start - 0) (hits q rows))
            ∙ ap (λ n. limit q.lim (drop n (hits q rows))) whole)
      ]
