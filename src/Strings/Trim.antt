-- ===== src/Strings/Trim.antt =====
-- What trimming leaves alone.
use ii_go.Base.{Bytes, ℕ, ◌≡◌, [], ◌∷◌, ◌++◌, arith}
use ii_go.Strings.{trim_suffix}

pub trim_suffix-append : (s : Bytes) (c : ℕ) → trim_suffix (s ++ c ∷ []) c ≡ s
unfolding trim_suffix
trim_suffix-append [] c = ground arith
trim_suffix-append (d ∷ []) c = ground arith
trim_suffix-append (d ∷ e ∷ s) c = ground (arith, trim_suffix-append (e ∷ s) c)
