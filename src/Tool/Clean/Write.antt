-- ===== src/Tool/Clean/Write.antt =====
-- Pass 2 of the command clean, on the lines that pass 1 read.
use mathlib.Core.Path.{subst}
use ii_go.Base.{
  leb, ◌==◌, if◌then◌else◌, Bool-cases, Bytes, str_eq, str_eq_refl, str_eq_iff, ℤ, pos, negsuc, neg,
  ℕ, zero, suc, ◌+◌, ◌-◌, ◌≡◌, refl, sym, ap, ◌∙◌, inl, inr, true, false, Option, none, some, List,
  [], ◌∷◌, ◌++◌, append_assoc, append-nil, arith,
}
use ii_go.Dict
use ii_go.Tool.Clean.{
  line_id, Counts, succ, is_positive, text_or_empty, kept_line, Pass2, tick, seen_id, write_line,
  pass2,
}
use ii_go.Tool.Clean.Spec.{is_of, count, final, fresh, compact, count-append, final-single}
use ii_go.Tool.Clean.Laws.{IsCounted, count-line}

-- The mark of an id after some of the lines: its count until it was written, then what is left of it,
-- negated.
abbrev pub mark : ℕ → ℕ → Option ℤ
mark all before =
    if all == 0
    then none
    else if before == 0
    then some (pos all)
    else some (neg (pos (all - before)))

pub record IsMarked (all before : List Bytes) (hash : List (Bytes × ℤ)) : Type 0 where
  pub marks : (id : Bytes) → Dict.get hash id ≡ mark (count id all) (count id before)
  pub keys : Dict.IsMap hash

succ-neg : (m : ℕ) → succ (neg (pos (suc m))) ≡ neg (pos m)
succ-neg zero = refl
succ-neg (suc m) = refl

negated_not_positive : (m : ℕ) → is_positive (neg (pos m)) ≡ false
negated_not_positive zero = refl
negated_not_positive (suc m) = refl

tick_lem :
    (id : Bytes) (m : ℕ) (out : List Bytes) (hash : List (Bytes × ℤ))
    → tick id (neg (pos (suc m))) out hash
      ≡ some (record { hash = Dict.put hash id (neg (pos m)); out = out })
unfolding tick
tick_lem id m out hash = rw (succ-neg m, negated_not_positive m)

-- The first record of an id.
seen_first :
    (l k : Bytes) (last : List (Bytes × Bytes)) (s : Pass2) (m : ℕ)
    → seen_id l k last s (some (pos (suc m)))
      ≡ some (record {
        hash = Dict.put (Dict.put s.hash k (negsuc m)) k (neg (pos m));
        out = s.out ++ kept_line l k (pos (suc m)) last ∷ [];
      })
unfolding seen_id
seen_first l k last s m =
    tick_lem k m (s.out ++ kept_line l k (pos (suc m)) last ∷ []) (Dict.put s.hash k (negsuc m))

-- A later one.
seen_later :
    (l k : Bytes) (last : List (Bytes × Bytes)) (s : Pass2) (m : ℕ)
    → seen_id l k last s (some (negsuc m))
      ≡ some (record { hash = Dict.put s.hash k (neg (pos m)); out = s.out })
unfolding seen_id
seen_later l k last s m = tick_lem k m s.out s.hash

module _ (all : List Bytes) (c : Counts) (h : IsCounted all c) where
  left_over :
      (before : List Bytes) (l k : Bytes) (ls : List Bytes)
      → all ≡ before ++ l ∷ ls
      → line_id l ≡ some k
      → count k all ≡ count k before + suc (count k ls)
  left_over before l k ls split e =
      let here : count k (l ∷ ls) ≡ suc (count k ls) =
        unfold count in rw e (ground (arith, str_eq_refl k)) in
      ap (count k) split ∙ count-append k before (l ∷ ls) ∙ ap (λ n. count k before + n) here

  mark_self :
      (before : List Bytes) (l k : Bytes) (hash : List (Bytes × ℤ)) (m : ℕ)
      → line_id l ≡ some k
      → count k all ≡ count k before + suc m
      → Dict.get (Dict.put hash k (neg (pos m))) k ≡ mark (count k all) (count k (before ++ l ∷ []))
  mark_self before l k hash m e left =
      let now : count k (before ++ l ∷ []) ≡ suc (count k before) =
        ground (arith, count-line k before l (some k) e, str_eq_refl k) in
      let rest : count k all - suc (count k before) ≡ m = omega arith in
      let some_all : (count k all == 0) ≡ false = ground arith in
      let some_before : (suc (count k before) == 0) ≡ false = ground arith in
      rw (now, some_all, some_before, rest) (Dict.get-put_self hash k (neg (pos m)))

  IsMarked-put :
      (before : List Bytes) (l k : Bytes) (hash : List (Bytes × ℤ)) (m : ℕ)
      → line_id l ≡ some k
      → IsMarked all before hash
      → count k all ≡ count k before + suc m
      → IsMarked all (before ++ l ∷ []) (Dict.put hash k (neg (pos m)))
  IsMarked-put before l k hash m e w left = record {
    marks = λ id. elim (Bool-cases (str_eq k id)) [
      | inl same ↦
          subst
            (λ i.
              Dict.get (Dict.put hash k (neg (pos m))) i
              ≡ mark (count i all) (count i (before ++ l ∷ [])))
            ((str_eq_iff k id).0 same) (mark_self before l k hash m e left)
      | inr other ↦ ground (
        arith,
        Dict.get-put hash k id (neg (pos m)),
        w.marks id,
        count-line id before l (some k) e,
      )
    ];
    keys = Dict.put-IsMap hash k (neg (pos m)) w.keys;
  }

  IsMarked-twice :
      (before : List Bytes) (l k : Bytes) (hash : List (Bytes × ℤ)) (v : ℤ) (m : ℕ)
      → line_id l ≡ some k
      → IsMarked all before hash
      → count k all ≡ count k before + suc m
      → IsMarked all (before ++ l ∷ []) (Dict.put (Dict.put hash k v) k (neg (pos m)))
  IsMarked-twice before l k hash v m e w left = record {
    marks = λ id. ground (
      arith,
      Dict.get-put (Dict.put hash k v) k id (neg (pos m)),
      Dict.get-put hash k id v,
      Dict.get-put hash k id (neg (pos m)),
      (IsMarked-put before l k hash m e w left).marks id,
    );
    keys = Dict.put-IsMap (Dict.put hash k v) k (neg (pos m)) (Dict.put-IsMap hash k v w.keys);
  }

  kept_line_lem :
      (before : List Bytes) (l k : Bytes) (ls : List Bytes) (m : ℕ)
      → all ≡ before ++ l ∷ ls
      → line_id l ≡ some k
      → count k all ≡ suc m
      → count k before ≡ 0
      → kept_line l k (pos (suc m)) c.last ≡ text_or_empty (final k all)
  unfolding kept_line
  kept_line_lem before l k ls zero split e n new =
      let alone : count k ls ≡ 0 = omega (arith, left_over before l k ls split e) in
      let it : is_of k (line_id l) ≡ true = rw e (str_eq_refl k) in
      sym (ap text_or_empty (ap (final k) split ∙ final-single k before l ls it alone))
  kept_line_lem before l k ls (suc m) split e n new =
      let more : leb 2 (count k all) ≡ true = ground arith in
      let known : Dict.get c.last k ≡ final k all = h.last_final k ∙ rw more in
      ap text_or_empty known

  -- One line of pass 2.
  abbrev Wrote : List Bytes → Bytes → Option Bytes → Pass2 → Type 0
  Wrote before l o s =
      (t : Pass2) × (write_line l c.last o s ≡ some t)
      × (t.out ≡ s.out ++ fresh all before o [])
      × IsMarked all (before ++ l ∷ []) t.hash

  wrote :
      (before : List Bytes) (l : Bytes) (o : Option Bytes) (ls : List Bytes) (s : Pass2)
      → all ≡ before ++ l ∷ ls
      → line_id l ≡ o
      → IsMarked all before s.hash
      → Wrote before l o s
  unfolding write_line
  wrote before l none ls s split e w = (
    s,
    refl,
    sym (append-nil s.out),
    record {
      marks = λ id. ground (arith, w.marks id, count-line id before l none e);
      keys = w.keys;
    },
  )
  wrote before l (some k) ls s split e w =
      let left = left_over before l k ls split e in
      elim (Bool-cases (count k before == 0)) [
        | inl new ↦
            let found : Dict.get s.hash k ≡ some (pos (suc (count k ls))) =
              let whole : count k all ≡ suc (count k ls) = ground arith in
              ground (arith, w.marks k) in
            rw (found, new)
              (
                record { hash = _; out = _ },
                seen_first l k c.last s (count k ls),
                ap (λ r. s.out ++ r ∷ [])
                    (kept_line_lem before l k ls (count k ls) split e (ground arith)
                      (ground arith)),
                IsMarked-twice before l k s.hash (negsuc (count k ls)) (count k ls) e w left,
              )
        | inr old ↦
            let found : Dict.get s.hash k ≡ some (negsuc (count k ls)) =
              let rest : count k all - count k before ≡ suc (count k ls) = omega arith in
              let some_all : (count k all == 0) ≡ false = ground arith in
              w.marks k ∙ rw (some_all, old, rest) in
            rw (found, old)
              (
                record { hash = _; out = _ },
                seen_later l k c.last s (count k ls),
                sym (append-nil s.out),
                IsMarked-put before l k s.hash (count k ls) e w left,
              )
      ]

  fresh-append :
      (before : List Bytes) (o : Option Bytes) (rest : List Bytes)
      → fresh all before o rest ≡ fresh all before o [] ++ rest
  fresh-append before none rest = refl
  fresh-append before (some k) rest = elim (Bool-cases (count k before == 0)) [
    | inl new ↦ rw new
    | inr old ↦ rw old
  ]

  pass2-step :
      (l : Bytes) (ls : List Bytes) (s t : Pass2)
      → write_line l c.last (line_id l) s ≡ some t
      → pass2 c.last (l ∷ ls) s ≡ pass2 c.last ls t
  unfolding pass2
  pass2-step l ls s t e = rw (pass2, e)

  -- Pass 2 from some line on.
  pub pass2_lem :
      (before ls : List Bytes) (s : Pass2)
      → all ≡ before ++ ls
      → IsMarked all before s.hash
      → (t : Pass2) × (pass2 c.last ls s ≡ some t)
        × (t.out ≡ s.out ++ compact all before ls)
        × IsMarked all all t.hash
  pass2_lem before [] s split w = (
    s,
    (unfold pass2 in refl),
    (unfold compact in sym (append-nil s.out)),
    subst (λ b. IsMarked all b s.hash) (sym (split ∙ append-nil before)) w,
  )
  pass2_lem before (l ∷ ls) s split w =
      let (t, e, out, w') = wrote before l (line_id l) ls s split refl w in
      let (u, f, out', w'') =
        pass2_lem (before ++ l ∷ []) ls t (split ∙ sym (append_assoc before (l ∷ []) ls)) w' in
      let rest = compact all (before ++ l ∷ []) ls in
      (
        u,
        pass2-step l ls s t e ∙ f,
        out'
            ∙ ap (λ o. o ++ rest) out
            ∙ append_assoc s.out (fresh all before (line_id l) []) rest
            ∙ ap (λ o. s.out ++ o)
                (sym (fresh-append before (line_id l) rest) ∙ (unfold compact in refl)),
        w'',
      )
