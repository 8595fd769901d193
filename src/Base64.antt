-- ===== src/Base64.antt =====
-- Go's package `encoding/base64`: the padded standard and URL encodings. The decoder skips \r and \n
-- and does not look at the bits that padding leaves over, as Go's does.
pub mod RoundTrip
use Prim.Native.Nat.{◌-◌, ◌*◌, ◌/◌, ◌%◌}
use ii_go.Base.{
  ltb, leb, ◌==◌, if◌then◌else◌, Bytes, ℕ, ◌+◌, ◌-◌, ◌*◌, ◌/◌, ◌%◌, ◌&&◌, Option, none, some, [],
  ◌∷◌,
}
use ii_go.Strings.{remove_all}

-- The bytes for the digits 62 and 63.
pub record Alphabet : Type 0 where
  pub plus : ℕ
  pub slash : ℕ

abbrev pub std : Alphabet
std = record { plus = b'+'; slash = b'/' }

abbrev pub url : Alphabet
url = record { plus = b'-'; slash = b'_' }

abbrev pub pad : ℕ
pad = b'='

unfoldable pub digit : Alphabet → ℕ → ℕ
digit al n =
    if ltb n 26
    then b'A' + n
    else if ltb n 52
    then b'a' + (n - 26)
    else if ltb n 62
    then b'0' + (n - 52)
    else if n == 62
    then al.plus
    else al.slash

unfoldable pub value : Alphabet → ℕ → Option ℕ
value al c =
    if leb b'A' c && leb c b'Z'
    then some (c - b'A')
    else if leb b'a' c && leb c b'z'
    then some (c - b'a' + 26)
    else if leb b'0' c && leb c b'9'
    then some (c - b'0' + 52)
    else if c == al.plus
    then some 62
    else if c == al.slash
    then some 63
    else none

-- EncodeToString
unfoldable pub encode : Alphabet → Bytes → Bytes
unfolding digit
encode al [] = []
encode al (a ∷ []) = digit al (a / 4) ∷ digit al (a % 4 * 16) ∷ pad ∷ pad ∷ []
encode al (a ∷ b ∷ []) =
    digit al (a / 4) ∷ digit al (a % 4 * 16 + b / 16) ∷ digit al (b % 16 * 4) ∷ pad ∷ []
encode al (a ∷ b ∷ c ∷ s) =
    digit al (a / 4)
    ∷ digit al (a % 4 * 16 + b / 16)
    ∷ digit al (b % 16 * 4 + c / 64)
    ∷ digit al (c % 64)
    ∷ encode al s

-- One, two or three bytes from the values of the digits.
unfoldable pub one_byte : Option ℕ → Option ℕ → Option Bytes
one_byte (some p) (some q) = some ((p * 4 + q / 16) ∷ [])
one_byte _ _ = none

unfoldable pub two_bytes : Option ℕ → Option ℕ → Option ℕ → Option Bytes
two_bytes (some p) (some q) (some r) = some ((p * 4 + q / 16) ∷ (q % 16 * 16 + r / 4) ∷ [])
two_bytes _ _ _ = none

unfoldable pub three_bytes : Option ℕ → Option ℕ → Option ℕ → Option ℕ → Option Bytes → Option Bytes
three_bytes (some p) (some q) (some r) (some t) (some rest) =
    some ((p * 4 + q / 16) ∷ (q % 16 * 16 + r / 4) ∷ (r % 4 * 64 + t) ∷ rest)
three_bytes _ _ _ _ _ = none

-- A quantum that ends in padding must be the last.
unfoldable pub last : Bytes → Option Bytes → Option Bytes
last [] o = o
last (c ∷ s) o = none

unfoldable pub quanta : Alphabet → Bytes → Option Bytes
unfolding value one_byte two_bytes three_bytes last
quanta al [] = some []
quanta al (p ∷ []) = none
quanta al (p ∷ q ∷ []) = none
quanta al (p ∷ q ∷ r ∷ []) = none
quanta al (p ∷ q ∷ r ∷ t ∷ s) =
    let rest = quanta al s in
    if r == pad
    then (if t == pad then last s (one_byte (value al p) (value al q)) else none)
    else if t == pad
    then last s (two_bytes (value al p) (value al q) (value al r))
    else three_bytes (value al p) (value al q) (value al r) (value al t) rest

-- DecodeString; `none` is a CorruptInputError.
unfoldable pub decode : Alphabet → Bytes → Option Bytes
unfolding quanta remove_all
decode al s = quanta al (remove_all (remove_all s b'\r') b'\n')
