-- ===== src/Tool/Clean/Correct.antt =====
-- The command clean on a file that does not change while it runs.
use ii_go.Base.{
  ◌==◌, Bool-cases, All, Bytes, ℤ, ◌-◌, ◌≤◌, ◌≡◌, refl, sym, ap, ◌∙◌, ◌⊎◌, inl, inr, true, some,
  List, [], ◌∷◌, arith,
}
use ii_go.Dict
use ii_go.Tool.Clean.{no_counts, pass1, no_dups, written, is_zero, all_zero, checked, clean}
use ii_go.Tool.Clean.Spec.{count, compact}
use ii_go.Tool.Clean.Laws.{IsCounted, IsCounted-pass1, IsCounted-start}
use ii_go.Tool.Clean.Write.{mark, IsMarked, pass2_lem}

module _ (ls : List Bytes) where
  counts : IsCounted ls (pass1 ls no_counts)
  counts = IsCounted-pass1 [] ls no_counts IsCounted-start

  start_marks : IsMarked ls [] (pass1 ls no_counts).hash
  start_marks = record {
    marks = λ id.
        counts.hash_count id
        ∙ (unfold count in elim (Bool-cases (count id ls == 0)) [ inl e ↦ rw e | inr n ↦ rw n ]);
    keys = counts.keys;
  }

  spent : (id : Bytes) (v : ℤ) → mark (count id ls) (count id ls) ≡ some v → is_zero v ≡ true
  spent id v e =
      let none_left : count id ls - count id ls ≡ 0 = omega arith in
      elim (Bool-cases (count id ls == 0)) [
        | inl z ↦ absurd (ground arith)
        | inr n ↦ ground (arith, none_left)
      ]

  zeros :
      (hash : List (Bytes × ℤ))
      → All (λ (r : Bytes × ℤ). is_zero r.1 ≡ true) hash
      → all_zero hash ≡ true
  unfolding all_zero
  zeros [] h = refl
  zeros ((k, v) ∷ hash) h = rw (h.0, zeros hash h.1)

  -- Pass 2 on the lines that pass 1 read ends without an error: the check behind every line holds, all
  -- counts end at zero, and the new file has for every id its last line, at the place of the first, and
  -- no line without a valid id. If no id occurs twice, nothing is written.
  pub clean-compact :
      (clean ls ls ≡ written (compact ls [] ls))
      ⊎ ((clean ls ls ≡ no_dups) × ((id : Bytes) → count id ls ≤ 1))
  unfolding clean checked
  clean-compact =
      let c = pass1 ls no_counts in
      let (t, e, out, w) =
        pass2_lem ls c counts [] ls (record { hash = c.hash; out = [] }) refl start_marks in
      let all_spent = zeros t.hash (
        Dict.IsMap-All (λ v. is_zero v ≡ true) t.hash w.keys
          (λ k v f. spent k v (sym (w.marks k) ∙ f))) in
      elim (Bool-cases (c.dup == 0)) [
        | inl none_twice ↦ inr (rw none_twice, λ id. ground (arith, counts.dups id))
        | inr twice ↦ inl (rw (twice, e, checked, all_spent) (ap written out))
      ]
