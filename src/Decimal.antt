-- ===== src/Decimal.antt =====
-- `strconv` and `fmt` on decimal integers: `%d` of an int64, and `fmt.Sscanf(s, "%d", &n)`.
pub mod RoundTrip
use Prim.Native.Nat.{◌-◌, ◌*◌, ◌/◌, ◌%◌, ◌<◌, ◌≤◌}
use ii_go.Base.{
  ltb, leb, ◌==◌, if◌then◌else◌, Bytes, ℤ, pos, negsuc, neg, ℕ, zero, suc, ◌+◌, ◌-◌, ◌*◌, ◌/◌, ◌%◌,
  ◌^◌, Bool, true, false, ◌&&◌, Option, none, some, [], ◌∷◌,
}
use ii_go.Strings.{trim_left_space}

-- The digits of `n` in front of `out`; a round per digit, and at most `fuel` rounds.
unfoldable pub digits : ℕ → ℕ → Bytes → Bytes
digits zero n out = out
digits (suc fuel) n out =
    let more = digits fuel (n / 10) ((b'0' + n % 10) ∷ out) in
    if ltb n 10 then (b'0' + n) ∷ out else more

-- An int64 has at most 19 digits.
unfoldable pub print_nat : ℕ → Bytes
unfolding digits
print_nat n = digits 20 n []

-- fmt.Sprint(n), fmt.Sprintf("%d", n)
unfoldable pub print_int : ℤ → Bytes
unfolding print_nat
print_int (pos n) = print_nat n
print_int (negsuc n) = b'-' ∷ print_nat (suc n)

abbrev pub is_digit : ℕ → Bool
is_digit c = leb b'0' c && leb c b'9'

-- The value of the digits that the text begins with, continued from `n`.
unfoldable pub scan_digits : Bytes → ℕ → ℕ
scan_digits [] n = n
scan_digits (c ∷ s) n =
    let rest = scan_digits s (n * 10 + (c - b'0')) in if is_digit c then rest else n

-- A sign is read, then at least one digit; a value out of range is an error.
unfoldable pub scan_unsigned : Bytes → Option ℕ
unfolding scan_digits
scan_unsigned [] = none
scan_unsigned (c ∷ s) = if is_digit c then some (scan_digits (c ∷ s) 0) else none

unfoldable pub in_range : ℕ → Bool → Option ℕ → Option ℤ
in_range bound negative none = none
in_range bound false (some n) = if ltb n bound then some (pos n) else none
in_range bound true (some n) = if leb n bound then some (neg (pos n)) else none

unfoldable pub scan_signed : ℕ → Bytes → Option ℤ
unfolding scan_unsigned in_range
scan_signed bound [] = none
scan_signed bound (c ∷ s) =
    if c == b'-'
    then in_range bound true (scan_unsigned s)
    else if c == b'+'
    then in_range bound false (scan_unsigned s)
    else in_range bound false (scan_unsigned (c ∷ s))

-- fmt.Sscanf(s, "%d", &n) for an int64, and for an int32; the text behind the number is not read.
unfoldable pub scan_int64 : Bytes → Option ℤ
unfolding scan_signed trim_left_space
scan_int64 s = scan_signed (2 ^ 63) (trim_left_space s)

unfoldable pub scan_int32 : Bytes → Option ℤ
unfolding scan_signed trim_left_space
scan_int32 s = scan_signed (2 ^ 31) (trim_left_space s)
