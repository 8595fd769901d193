-- ===== src/Decimal/RoundTrip.antt =====
-- What is printed is read back.
use Prim.Native.Nat.{◌*◌, ◌/◌, ◌%◌, ◌<◌, ◌≤◌}
use native.Mathlib.Nat.{pow-suc}
use ii_go.Base.{
  ltb, Bool-cases, All, Bytes, Lacks, ℤ, pos, negsuc, IsInt64, IsInt32, ℕ, zero, suc, ◌+◌, ◌*◌, ◌/◌,
  ◌%◌, ◌^◌, ◌≤◌, ◌<◌, ◌≡◌, refl, ap, ◌∙◌, ◌≢◌, inl, inr, true, false, some, [], ◌∷◌, arith,
}
use ii_go.Strings.{trim_left_space}
use ii_go.Decimal.{
  digits, print_nat, print_int, is_digit, scan_digits, scan_unsigned, in_range, scan_signed,
  scan_int64, scan_int32,
}

-- Digits, up to the first byte that is none.
abbrev pub Ends : Bytes → Type 0
Ends [] = Unit
Ends (c ∷ s) = is_digit c ≡ false

scan_digits-Ends : (s : Bytes) (n : ℕ) → Ends s → scan_digits s n ≡ n
unfolding scan_digits
scan_digits-Ends [] n h = refl
scan_digits-Ends (c ∷ s) n h = ground arith

scan_digits-cons :
    (d n : ℕ) (s : Bytes) → d < 10 → scan_digits ((b'0' + d) ∷ s) n ≡ scan_digits s (n * 10 + d)
unfolding scan_digits
scan_digits-cons d n s h = ground arith

scan_digits-digits :
    (fuel n : ℕ) (out : Bytes)
    → n < 10 ^ fuel
    → scan_digits (digits fuel n out) 0 ≡ scan_digits out n
unfolding digits
scan_digits-digits zero n out h = let e : n ≡ 0 = omega arith in rw e
scan_digits-digits (suc fuel) n out h = elim (Bool-cases (ltb n 10)) [
  | inl small ↦
      rw small (scan_digits-cons n 0 out (ground arith) ∙ ap (scan_digits out) (omega arith))
  | inr big ↦
      let e : n / 10 * 10 + n % 10 ≡ n = omega arith in
      rw big (
        scan_digits-digits fuel (n / 10) ((b'0' + n % 10) ∷ out) (omega (arith, pow-suc 10 fuel))
        ∙ scan_digits-cons (n % 10) (n / 10) out (omega arith)
        ∙ ap (scan_digits out) e)
]

-- A digit comes first.
abbrev pub Starts : Bytes → Type 0
Starts [] = ⊥
Starts (c ∷ s) = is_digit c ≡ true

digits-Starts_out : (fuel n : ℕ) (out : Bytes) → Starts out → Starts (digits fuel n out)
unfolding digits
digits-Starts_out zero n out h = h
digits-Starts_out (suc fuel) n out h = elim (Bool-cases (ltb n 10)) [
  | inl small ↦ rw small (ground arith)
  | inr big ↦ rw big (digits-Starts_out fuel (n / 10) ((b'0' + n % 10) ∷ out) (ground arith))
]

print_nat-Starts : (n : ℕ) → Starts (print_nat n)
unfolding print_nat digits
print_nat-Starts n = elim (Bool-cases (ltb n 10)) [
  | inl small ↦ rw small (ground arith)
  | inr big ↦ rw big (digits-Starts_out 19 (n / 10) ((b'0' + n % 10) ∷ []) (ground arith))
]

scan_unsigned-Starts : (s : Bytes) → Starts s → scan_unsigned s ≡ some (scan_digits s 0)
unfolding scan_unsigned
scan_unsigned-Starts [] h = elim h [ ]
scan_unsigned-Starts (c ∷ s) h = rw h

pub scan_unsigned-print_nat : (n : ℕ) → n < 10 ^ 20 → scan_unsigned (print_nat n) ≡ some n
scan_unsigned-print_nat n h =
    scan_unsigned-Starts (print_nat n) (print_nat-Starts n)
    ∙ ap some (unfold print_nat scan_digits in scan_digits-digits 20 n [] h)

scan_signed-Starts :
    (bound : ℕ) (s : Bytes)
    → Starts s
    → scan_signed bound s ≡ in_range bound false (scan_unsigned s)
unfolding scan_signed
scan_signed-Starts bound [] h = elim h [ ]
scan_signed-Starts bound (c ∷ s) h = ground arith

-- A number's first byte is no blank.
trim_left_space-print : (c : ℕ) (s : Bytes) → 33 ≤ c → c < 128 → trim_left_space (c ∷ s) ≡ c ∷ s
unfolding trim_left_space
trim_left_space-print c [] h k = ground arith
trim_left_space-print c (d ∷ []) h k = ground arith
trim_left_space-print c (d ∷ e ∷ s) h k = ground arith

trim_left_space-Starts : (s : Bytes) → Starts s → trim_left_space s ≡ s
trim_left_space-Starts [] h = elim h [ ]
trim_left_space-Starts (c ∷ s) h = trim_left_space-print c s (ground arith) (ground arith)

-- Every int64 is read back from its decimal print.
pub scan_int64-print_int : (z : ℤ) → IsInt64 z → scan_int64 (print_int z) ≡ some z
unfolding scan_int64 print_int
scan_int64-print_int (pos n) h =
    ap (scan_signed (2 ^ 63)) (trim_left_space-Starts (print_nat n) (print_nat-Starts n))
    ∙ scan_signed-Starts (2 ^ 63) (print_nat n) (print_nat-Starts n)
    ∙ rw (scan_unsigned-print_nat n (omega arith)) (ground arith)
scan_int64-print_int (negsuc n) h =
    ap (scan_signed (2 ^ 63))
      (trim_left_space-print b'-' (print_nat (suc n)) (omega arith) (omega arith))
    ∙ rw (scan_unsigned-print_nat (suc n) (omega arith)) (ground arith)

-- Every int32 is read back from its decimal print.
pub scan_int32-print_int : (z : ℤ) → IsInt32 z → scan_int32 (print_int z) ≡ some z
unfolding scan_int32 print_int
scan_int32-print_int (pos n) h =
    ap (scan_signed (2 ^ 31)) (trim_left_space-Starts (print_nat n) (print_nat-Starts n))
    ∙ scan_signed-Starts (2 ^ 31) (print_nat n) (print_nat-Starts n)
    ∙ rw (scan_unsigned-print_nat n (omega arith)) (ground arith)
scan_int32-print_int (negsuc n) h =
    ap (scan_signed (2 ^ 31))
      (trim_left_space-print b'-' (print_nat (suc n)) (omega arith) (omega arith))
    ∙ rw (scan_unsigned-print_nat (suc n) (omega arith)) (ground arith)

digits-All :
    (P : ℕ → Type 0) (fuel n : ℕ) (out : Bytes)
    → ((c : ℕ) → b'0' ≤ c → c ≤ b'9' → P c)
    → All P out
    → All P (digits fuel n out)
unfolding digits
digits-All P zero n out k h = h
digits-All P (suc fuel) n out k h = elim (Bool-cases (ltb n 10)) [
  | inl small ↦ rw small (k (b'0' + n) (omega arith) (ground arith), h)
  | inr big ↦ rw big (
      digits-All P fuel (n / 10) ((b'0' + n % 10) ∷ out) k
        (k (b'0' + n % 10) (omega arith) (omega arith), h))
]

-- A printed number holds no byte that is neither a digit nor the sign.
pub print_int-All :
    (P : ℕ → Type 0) (z : ℤ) → P b'-' → ((c : ℕ) → b'0' ≤ c → c ≤ b'9' → P c) → All P (print_int z)
unfolding print_int print_nat
print_int-All P (pos n) s k = digits-All P 20 n [] k tt
print_int-All P (negsuc n) s k = (s, digits-All P 20 (suc n) [] k tt)

pub print_int-Lacks : (c : ℕ) (z : ℤ) → c < b'-' → Lacks c (print_int z)
print_int-Lacks c z h = print_int-All (λ d. d ≢ c) z (omega arith) (λ d lo hi. omega arith)

pub print_int-colon : (z : ℤ) → Lacks b':' (print_int z)
print_int-colon z = print_int-All (λ d. d ≢ b':') z (omega arith) (λ d lo hi. omega arith)
