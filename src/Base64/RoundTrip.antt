-- ===== src/Base64/RoundTrip.antt =====
-- Decoding undoes encoding, and which bytes an encoded text holds.
use Prim.Native.Nat.{◌<◌, ◌≤◌}
use ii_go.Base.{
  ◌==◌, All, All-imp, Bytes, IsByte, ℕ, ◌+◌, ◌*◌, ◌/◌, ◌%◌, ◌≤◌, ◌<◌, ◌≡◌, refl, ◌≢◌, false, some,
  [], ◌∷◌, arith,
}
use ii_go.Strings.Replace.{remove_all-Lacks}
use ii_go.Base64.{std, pad, digit, value, encode, one_byte, two_bytes, three_bytes, quanta, decode}

-- The bytes that an encoding in the standard alphabet holds.
abbrev pub IsText : ℕ → Type 0
IsText c = (33 ≤ c) × (c < 128) × (c ≢ b'.') × (c ≢ b':') × (c ≢ b'-') × (c ≢ b'_')

digit-IsText : (n : ℕ) → n < 64 → IsText (digit std n) × (digit std n ≢ pad)
unfolding digit
digit-IsText n h = ground arith

digit-ne-pad : (n : ℕ) → n < 64 → (digit std n == pad) ≡ false
digit-ne-pad n h = ground (arith, digit-IsText n)

value-digit : (n : ℕ) → n < 64 → value std (digit std n) ≡ some n
unfolding digit value
value-digit n h = ground arith

pub encode-IsText : (s : Bytes) → All IsByte s → All IsText (encode std s)
unfolding encode
encode-IsText [] h = tt
encode-IsText (a ∷ []) h = ground (arith, digit-IsText (a / 4), digit-IsText (a % 4 * 16))
encode-IsText (a ∷ b ∷ []) h =
    ground
      (arith, digit-IsText (a / 4), digit-IsText (a % 4 * 16 + b / 16), digit-IsText (b % 16 * 4))
encode-IsText (a ∷ b ∷ c ∷ s) h = ground (
  arith,
  digit-IsText (a / 4),
  digit-IsText (a % 4 * 16 + b / 16),
  digit-IsText (b % 16 * 4 + c / 64),
  digit-IsText (c % 64),
  encode-IsText s,
)

three_back :
    (a b c : ℕ) (s : Bytes)
    → a < 256
    → b < 256
    → c < 256
    → three_bytes
        (some (a / 4))
        (some (a % 4 * 16 + b / 16))
        (some (b % 16 * 4 + c / 64))
        (some (c % 64))
        (some s)
      ≡ some (a ∷ b ∷ c ∷ s)
unfolding three_bytes
three_back a b c s ha hb hc =
    let e : (a / 4) * 4 + (a % 4 * 16 + b / 16) / 16 ≡ a = omega arith in
    let f : (a % 4 * 16 + b / 16) % 16 * 16 + (b % 16 * 4 + c / 64) / 4 ≡ b = omega arith in
    let g : (b % 16 * 4 + c / 64) % 4 * 64 + c % 64 ≡ c = omega arith in rw (e, f, g)

two_back :
    (a b : ℕ)
    → a < 256
    → b < 256
    → two_bytes (some (a / 4)) (some (a % 4 * 16 + b / 16)) (some (b % 16 * 4)) ≡ some (a ∷ b ∷ [])
unfolding two_bytes
two_back a b ha hb =
    let e : (a / 4) * 4 + (a % 4 * 16 + b / 16) / 16 ≡ a = omega arith in
    let f : (a % 4 * 16 + b / 16) % 16 * 16 + b % 16 * 4 / 4 ≡ b = omega arith in rw (e, f)

one_back : (a : ℕ) → a < 256 → one_byte (some (a / 4)) (some (a % 4 * 16)) ≡ some (a ∷ [])
unfolding one_byte
one_back a ha = let e : (a / 4) * 4 + a % 4 * 16 / 16 ≡ a = omega arith in rw e

quanta-encode : (s : Bytes) → All IsByte s → quanta std (encode std s) ≡ some s
unfolding quanta encode
quanta-encode [] h = refl
quanta-encode (a ∷ []) h =
    rw (value-digit (a / 4) (omega arith), value-digit (a % 4 * 16) (omega arith)) (one_back a h.0)
quanta-encode (a ∷ b ∷ []) (ha, (hb, h)) =
    rw
      (
        digit-ne-pad (b % 16 * 4) (omega arith),
        value-digit (a / 4) (omega arith),
        value-digit (a % 4 * 16 + b / 16) (omega arith),
        value-digit (b % 16 * 4) (omega arith),
      )
      (two_back a b ha hb)
quanta-encode (a ∷ b ∷ c ∷ s) (ha, (hb, (hc, h))) =
    rw
      (
        digit-ne-pad (b % 16 * 4 + c / 64) (omega arith),
        digit-ne-pad (c % 64) (omega arith),
        value-digit (a / 4) (omega arith),
        value-digit (a % 4 * 16 + b / 16) (omega arith),
        value-digit (b % 16 * 4 + c / 64) (omega arith),
        value-digit (c % 64) (omega arith),
        quanta-encode s h,
      )
      (three_back a b c s ha hb hc)

-- A byte string is read back from its standard encoding.
pub decode-encode : (s : Bytes) → All IsByte s → decode std (encode std s) ≡ some s
unfolding decode
decode-encode s h =
    let text = encode-IsText s h in
    rw
      (remove_all-Lacks (encode std s) b'\r'
        (All-imp IsText (λ c. c ≢ b'\r') (λ c p. omega arith) _ text))
      (rw
        (remove_all-Lacks (encode std s) b'\n'
          (All-imp IsText (λ c. c ≢ b'\n') (λ c p. omega arith) _ text))
        (quanta-encode s h))
