-- ===== src/Tool/Clean/Spec.antt =====
-- What the command clean should write, and the counts that it should keep.
use ii_go.Base.{
  ◌==◌, if◌then◌else◌, Bool-cases, Bytes, str_eq, ℕ, ◌+◌, ◌≡◌, refl, inl, inr, Bool, true, false,
  Option, none, some, List, [], ◌∷◌, ◌++◌, arith,
}
use ii_go.Tool.Clean.{line_id, text_or_empty}

abbrev pub is_of : Bytes → Option Bytes → Bool
is_of id none = false
is_of id (some j) = str_eq j id

abbrev pub one : Bool → ℕ
one true = 1
one false = 0

-- How many lines have the id.
unfoldable pub count : Bytes → List Bytes → ℕ
count id [] = 0
count id (l ∷ ls) = one (is_of id (line_id l)) + count id ls

-- The last line that has it.
unfoldable pub final : Bytes → List Bytes → Option Bytes
final id [] = none
final id (l ∷ ls) = elim (final id ls) [
  | some f ↦ some f
  | none ↦ if is_of id (line_id l) then some l else none
]

abbrev pub fresh : List Bytes → List Bytes → Option Bytes → List Bytes → List Bytes
fresh all before none rest = rest
fresh all before (some id) rest =
    if count id before == 0 then text_or_empty (final id all) ∷ rest else rest

-- For each line whose id no earlier line has, the last line with that id; the other lines go.
unfoldable pub compact : List Bytes → List Bytes → List Bytes → List Bytes
compact all before [] = []
compact all before (l ∷ ls) = fresh all before (line_id l) (compact all (before ++ l ∷ []) ls)

pub count-snoc :
    (id : Bytes) (ls : List Bytes) (l : Bytes)
    → count id (ls ++ l ∷ []) ≡ count id ls + one (is_of id (line_id l))
unfolding count
count-snoc id [] l = omega arith
count-snoc id (k ∷ ls) l = omega (arith, count-snoc id ls l)

pub count-append :
    (id : Bytes) (ls ms : List Bytes) → count id (ls ++ ms) ≡ count id ls + count id ms
unfolding count
count-append id [] ms = omega arith
count-append id (k ∷ ls) ms = omega (arith, count-append id ls ms)

pub final-snoc :
    (id : Bytes) (ls : List Bytes) (l : Bytes)
    → final id (ls ++ l ∷ []) ≡ (if is_of id (line_id l) then some l else final id ls)
unfolding final
final-snoc id [] l = refl
final-snoc id (k ∷ ls) l =
    rw (final-snoc id ls l)
      (elim (Bool-cases (is_of id (line_id l))) [ inl e ↦ rw e | inr n ↦ rw n ])

final-none : (id : Bytes) (ls : List Bytes) → count id ls ≡ 0 → final id ls ≡ none
unfolding count final
final-none id [] h = refl
final-none id (l ∷ ls) h = elim (Bool-cases (is_of id (line_id l))) [
  | inl e ↦ absurd (ground arith)
  | inr n ↦ rw (final-none id ls (ground arith), n)
]

-- A line behind which no line has its id is the last one.
pub final-single :
    (id : Bytes) (before : List Bytes) (l : Bytes) (ls : List Bytes)
    → is_of id (line_id l) ≡ true
    → count id ls ≡ 0
    → final id (before ++ l ∷ ls) ≡ some l
unfolding final
final-single id [] l ls e h = rw (final-none id ls h, e)
final-single id (k ∷ before) l ls e h = rw (final-single id before l ls e h)
