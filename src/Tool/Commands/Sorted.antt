-- ===== src/Tool/Commands/Sorted.antt =====
-- ii-tool/main.go: what the command sort prints.
use mathlib.Core.List.{Perm}
use mathlib.Core.List.Perm
use ii_go.Base.{
  Bool-cases, All, All-imp, ℤ, pos, negsuc, ◌≡◌, refl, inl, inr, Bool, true, false, List, [], ◌∷◌,
  arith,
}
use ii_go.Msg.Encode.{Msg}
use ii_go.Tool.Commands.{less, goes_before, insert_msg, sort_msgs}

-- Every message is before none that should be before it.
abbrev pub IsOrdered : Bool → List Msg → Type 0
IsOrdered invert [] = Unit
IsOrdered invert (m ∷ l) = All (λ n. goes_before invert n m ≡ false) l × IsOrdered invert l

less_trans : (a b c : ℤ) → less b a ≡ false → less c b ≡ false → less c a ≡ false
unfolding less
less_trans (pos a) (pos b) (pos c) h k = ground arith
less_trans (pos a) (pos b) (negsuc c) h k = cc
less_trans (pos a) (negsuc b) c h k = cc
less_trans (negsuc a) (pos b) (pos c) h k = refl
less_trans (negsuc a) (pos b) (negsuc c) h k = cc
less_trans (negsuc a) (negsuc b) (pos c) h k = refl
less_trans (negsuc a) (negsuc b) (negsuc c) h k = ground arith

less-asym : (a b : ℤ) → less a b ≡ true → less b a ≡ false
unfolding less
less-asym (pos a) (pos b) h = ground arith
less-asym (pos a) (negsuc b) h = cc
less-asym (negsuc a) (pos b) h = refl
less-asym (negsuc a) (negsuc b) h = ground arith

before_trans :
    (invert : Bool) (a b c : Msg)
    → goes_before invert b a ≡ false
    → goes_before invert c b ≡ false
    → goes_before invert c a ≡ false
unfolding goes_before
before_trans true a b c h k = less_trans c.date b.date a.date k h
before_trans false a b c h k = less_trans a.date b.date c.date h k

before-asym :
    (invert : Bool) (a b : Msg) → goes_before invert a b ≡ true → goes_before invert b a ≡ false
unfolding goes_before
before-asym true a b h = less-asym b.date a.date h
before-asym false a b h = less-asym a.date b.date h

insert_msg-Perm : (invert : Bool) (m : Msg) (l : List Msg) → Perm (insert_msg invert m l) (m ∷ l)
unfolding insert_msg
insert_msg-Perm invert m [] = Perm.refl _
insert_msg-Perm invert m (n ∷ l) = elim (Bool-cases (goes_before invert n m)) [
  | inl e ↦ rw e (Perm.trans (Perm.cons n (insert_msg-Perm invert m l)) (Perm.swap m n l))
  | inr e ↦ rw e (Perm.refl _)
]

pub sort_msgs-Perm : (invert : Bool) (l : List Msg) → Perm (sort_msgs invert l) l
unfolding sort_msgs
sort_msgs-Perm invert [] = Perm.refl _
sort_msgs-Perm invert (m ∷ l) =
    Perm.trans (insert_msg-Perm invert m (sort_msgs invert l))
      (Perm.cons m (sort_msgs-Perm invert l))

insert_msg-All :
    (P : Msg → Type 0) (invert : Bool) (m : Msg) (l : List Msg)
    → P m
    → All P l
    → All P (insert_msg invert m l)
unfolding insert_msg
insert_msg-All P invert m [] p h = (p, tt)
insert_msg-All P invert m (n ∷ l) p h = elim (Bool-cases (goes_before invert n m)) [
  | inl e ↦ rw e (h.0, insert_msg-All P invert m l p (h.1))
  | inr e ↦ rw e (p, h)
]

insert_msg-IsOrdered :
    (invert : Bool) (m : Msg) (l : List Msg)
    → IsOrdered invert l
    → IsOrdered invert (insert_msg invert m l)
unfolding insert_msg
insert_msg-IsOrdered invert m [] h = (tt, tt)
insert_msg-IsOrdered invert m (n ∷ l) h = elim (Bool-cases (goes_before invert n m)) [
  | inl e ↦ rw e (
    insert_msg-All (λ k. goes_before invert k n ≡ false) invert m l (before-asym invert n m e)
        (h.0),
    insert_msg-IsOrdered invert m l (h.1),
  )
  | inr e ↦ rw e (
    (
      e,
      All-imp (λ k. goes_before invert k n ≡ false) (λ k. goes_before invert k m ≡ false)
          (λ k f. before_trans invert m n k e f) l (h.0),
    ),
    h,
  )
]

pub sort_msgs-IsOrdered : (invert : Bool) (l : List Msg) → IsOrdered invert (sort_msgs invert l)
unfolding sort_msgs
sort_msgs-IsOrdered invert [] = tt
sort_msgs-IsOrdered invert (m ∷ l) =
    insert_msg-IsOrdered invert m (sort_msgs invert l) (sort_msgs-IsOrdered invert l)
