-- ===== src/Base/Fallible.antt =====
-- Fallible code: a value or the error that the source returns beside `nil`.
use mathlib.Core.Path.{◌≡◌, refl}

pub data Result {ℓ} (E A : Type ℓ) : Type ℓ where
  ok : A → Result E A
  err : E → Result E A

infixl 5 ◌>>=◌ ◌>>◌
abbrev pub ◌>>=◌ {ℓ} : {E A B : Type ℓ} → Result E A → (A → Result E B) → Result E B
r >>= next = elim r [ ok a ↦ next a | err e ↦ err e ]

-- What `if err != nil { return err }` was passed: a run that ended well had a first part that did.
pub first_ok {ℓ} :
    {E A B : Type ℓ} (next : A → Result E B) (out : B) (r : Result E A)
    → (r >>= next) ≡ ok out
    → (a : A) × (next a ≡ ok out) × (r ≡ ok a)
first_ok next out (ok a) run = (a, run, refl)
first_ok next out (err e) run = cc

abbrev pub ◌>>◌ : {E B : Type 0} → Result E (Unit {0}) → Result E B → Result E B
checked >> rest = checked >>= λ _. rest
