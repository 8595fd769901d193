-- ===== src/Strings/Split.antt =====
-- `split` and `join` are inverse to one another, and what the parts hold.
use ii_go.Base.{
  ◌==◌, Bool-cases, All, Bytes, Lacks, ℕ, ◌≡◌, refl, ap, ◌∙◌, ◌≢◌, inl, inr, true, false, List, [],
  ◌∷◌, ◌++◌, arith,
}
use ii_go.Strings.{extend, split, join, contains, has_prefix}

pub split-ne-nil : (s : Bytes) (sep : ℕ) → split s sep ≢ []
unfolding split
split-ne-nil [] sep = ground arith
split-ne-nil (c ∷ s) sep = ground arith

-- A part without the separator stays whole, up to the separator that follows it.
pub split-append :
    (p rest : Bytes) (sep : ℕ) → Lacks sep p → split (p ++ sep ∷ rest) sep ≡ p ∷ split rest sep
unfolding split
split-append [] rest sep h = ground arith
split-append (c ∷ p) rest sep h = ground (arith, split-append p rest sep)

pub split-Lacks : (p : Bytes) (sep : ℕ) → Lacks sep p → split p sep ≡ p ∷ []
unfolding split
split-Lacks [] sep h = refl
split-Lacks (c ∷ p) sep h = ground (arith, split-Lacks p sep)

-- Splitting a join of parts that lack the separator gives the parts.
pub split-join :
    (p : Bytes) (ps : List Bytes) (sep : ℕ)
    → All (Lacks sep) (p ∷ ps)
    → split (join (p ∷ ps) sep) sep ≡ p ∷ ps
unfolding join
split-join p [] sep h = split-Lacks p sep h.0
split-join p (q ∷ ps) sep h =
    split-append p (join (q ∷ ps) sep) sep h.0 ∙ ap (λ r. p ∷ r) (split-join q ps sep h.1)

join-extend :
    (c : ℕ) (ps : List Bytes) (sep : ℕ) → ps ≢ [] → join (extend c ps) sep ≡ c ∷ join ps sep
unfolding join
join-extend c [] sep h = absurd (h refl)
join-extend c (p ∷ []) sep h = refl
join-extend c (p ∷ q ∷ ps) sep h = refl

join_nil_cons : (ps : List Bytes) (sep : ℕ) → ps ≢ [] → join ([] ∷ ps) sep ≡ sep ∷ join ps sep
unfolding join
join_nil_cons [] sep h = absurd (h refl)
join_nil_cons (p ∷ ps) sep h = refl

extend-All :
    (c : ℕ) (ps : List Bytes) (sep : ℕ)
    → c ≢ sep
    → All (Lacks sep) ps
    → All (Lacks sep) (extend c ps)
extend-All c [] sep d h = ((d, tt), tt)
extend-All c (p ∷ ps) sep d h = ((d, h.0), h.1)

-- Joining the parts of a split gives the text back.
pub join-split : (s : Bytes) (sep : ℕ) → join (split s sep) sep ≡ s
unfolding split
join-split [] sep = unfold join in refl
join-split (c ∷ s) sep = ground (
  arith,
  join-split s sep,
  join-extend c (split s sep) sep (split-ne-nil s sep),
  join_nil_cons (split s sep) sep (split-ne-nil s sep),
)

-- No part of a split holds the separator.
pub split-All-Lacks : (s : Bytes) (sep : ℕ) → All (Lacks sep) (split s sep)
unfolding split
split-All-Lacks [] sep = (tt, tt)
split-All-Lacks (c ∷ s) sep = elim (Bool-cases (c == sep)) [
  | inl e ↦ rw e (tt, split-All-Lacks s sep)
  | inr d ↦ rw d (extend-All c (split s sep) sep (ground arith) (split-All-Lacks s sep))
]

pub contains-Lacks : (s : Bytes) (c : ℕ) → contains s c ≡ false → Lacks c s
unfolding contains
contains-Lacks [] c h = tt
contains-Lacks (d ∷ s) c h = ground (arith, contains-Lacks s c)

pub Lacks-contains : (s : Bytes) (c : ℕ) → Lacks c s → contains s c ≡ false
unfolding contains
Lacks-contains [] c h = refl
Lacks-contains (d ∷ s) c h = ground (arith, Lacks-contains s c)

pub contains-append_sep : (s t : Bytes) (c : ℕ) → contains (s ++ c ∷ t) c ≡ true
unfolding contains
contains-append_sep [] t c = ground arith
contains-append_sep (d ∷ s) t c = ground (arith, contains-append_sep s t c)

pub has_prefix-append : (s r p : Bytes) → has_prefix s p ≡ true → has_prefix (s ++ r) p ≡ true
unfolding has_prefix
has_prefix-append s r [] h = refl
has_prefix-append [] r (d ∷ p) h = cc
has_prefix-append (c ∷ s) r (d ∷ p) h = ground (arith, has_prefix-append s r p)

pub has_prefix-join :
    (l : Bytes) (ls : List Bytes) (sep : ℕ) (p : Bytes)
    → has_prefix l p ≡ true
    → has_prefix (join (l ∷ ls) sep) p ≡ true
unfolding join
has_prefix-join l [] sep p h = h
has_prefix-join l (k ∷ ls) sep p h = has_prefix-append l (sep ∷ join (k ∷ ls) sep) p h
