-- ===== src/Strings/Runes.antt =====
-- Go's conversions between a string and its runes: []rune(s), each rune by the bytes that string() makes
-- of it. A byte that begins no UTF-8 sequence is the rune U+FFFD.
use ii_go.Base.{
  ltb, leb, ◌==◌, if◌then◌else◌, take, Bytes, ℕ, zero, suc, Bool, false, ◌&&◌, List, [], ◌∷◌, ◌++◌,
}

is_tail : ℕ → Bool
is_tail c = leb 0x80 c && leb c 0xbf

-- The second byte of a sequence of three and of one of four; the bounds leave out the surrogates and what
-- has a shorter sequence.
second_of_three : ℕ → ℕ → Bool
second_of_three a b =
    if a == 0xe0
    then leb 0xa0 b && leb b 0xbf
    else if a == 0xed
    then leb 0x80 b && leb b 0x9f
    else leb 0x80 b && leb b 0xbf

second_of_four : ℕ → ℕ → Bool
second_of_four a b =
    if a == 0xf0
    then leb 0x90 b && leb b 0xbf
    else if a == 0xf4
    then leb 0x80 b && leb b 0x8f
    else leb 0x80 b && leb b 0xbf

two_bytes : ℕ → Bytes → Bool
unfolding is_tail
two_bytes a (b ∷ s) = leb 0xc2 a && leb a 0xdf && is_tail b
two_bytes a _ = false

three_bytes : ℕ → Bytes → Bool
unfolding is_tail second_of_three
three_bytes a (b ∷ c ∷ s) = leb 0xe0 a && leb a 0xef && second_of_three a b && is_tail c
three_bytes a _ = false

four_bytes : ℕ → Bytes → Bool
unfolding is_tail second_of_four
four_bytes a (b ∷ c ∷ d ∷ s) =
    leb 0xf0 a && leb a 0xf4 && second_of_four a b && is_tail c && is_tail d
four_bytes a _ = false

-- The length of the rune that the text begins with, 0 for a byte that begins none.
unfoldable pub rune_len : ℕ → Bytes → ℕ
unfolding two_bytes three_bytes four_bytes
rune_len a s =
    if ltb a 0x80
    then 1
    else if two_bytes a s
    then 2
    else if three_bytes a s
    then 3
    else if four_bytes a s
    then 4
    else 0

abbrev pub replacement : Bytes
replacement = 0xef ∷ 0xbf ∷ 0xbd ∷ []

-- `skip` counts the bytes of a rune that are still to be passed.
unfoldable pub runes_behind : ℕ → Bytes → List Bytes
runes_behind skip [] = []
runes_behind (suc skip) (c ∷ s) = runes_behind skip s
runes_behind zero (c ∷ s) = elim (rune_len c s) [
  | zero ↦ replacement ∷ runes_behind zero s
  | suc n ↦ take (suc n) (c ∷ s) ∷ runes_behind n s
]

-- []rune(s)
abbrev pub runes : Bytes → List Bytes
runes s = runes_behind 0 s

-- string(r)
unfoldable pub string_of : List Bytes → Bytes
string_of [] = []
string_of (r ∷ rs) = r ++ string_of rs
