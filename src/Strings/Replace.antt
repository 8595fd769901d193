-- ===== src/Strings/Replace.antt =====
-- What replacing leaves alone.
use ii_go.Base.{Bytes, Lacks, ℕ, ◌≡◌, refl, [], ◌∷◌, arith}
use ii_go.Strings.{replace, remove_all}

pub replace-Lacks : (s : Bytes) (a b : ℕ) → Lacks a s → replace s a b ≡ s
unfolding replace
replace-Lacks [] a b h = refl
replace-Lacks (c ∷ s) a b h = ground (arith, replace-Lacks s a b)

pub remove_all-Lacks : (s : Bytes) (a : ℕ) → Lacks a s → remove_all s a ≡ s
unfolding remove_all
remove_all-Lacks [] a h = refl
remove_all-Lacks (c ∷ s) a h = ground (arith, remove_all-Lacks s a)

-- Nothing that is removed is left.
pub Lacks-remove_all : (s : Bytes) (a : ℕ) → Lacks a (remove_all s a)
unfolding remove_all
Lacks-remove_all [] a = tt
Lacks-remove_all (c ∷ s) a = ground (arith, Lacks-remove_all s a)
