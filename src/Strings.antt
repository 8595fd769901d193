-- ===== src/Strings.antt =====
-- The functions of Go's package `strings` (and `fmt.Sscanf("%d")`'s skipping of blanks) that the
-- program calls, over byte strings. `split` is for separators of one byte.
pub mod Split
pub mod Trim
pub mod Replace
pub mod Runes
use ii_go.Base.{
  leb, ◌==◌, if◌then◌else◌, length, drop, Bytes, ℕ, zero, suc, ◌-◌, Bool, true, false, ◌&&◌, ◌||◌,
  List, [], ◌∷◌, ◌++◌, reverse,
}

-- Put a byte in front of the first part.
abbrev pub extend : ℕ → List Bytes → List Bytes
extend c [] = (c ∷ []) ∷ []
extend c (p ∷ ps) = (c ∷ p) ∷ ps

-- strings.Split(s, sep)
unfoldable pub split : Bytes → ℕ → List Bytes
split [] sep = [] ∷ []
split (c ∷ s) sep = let ps = split s sep in if c == sep then [] ∷ ps else extend c ps

-- strings.SplitN(s, sep, n) for n > 0: at most n parts, the last one unsplit.
unfoldable pub split_n : Bytes → ℕ → ℕ → List Bytes
split_n s sep zero = []
split_n s sep (suc zero) = s ∷ []
split_n [] sep (suc (suc n)) = [] ∷ []
split_n (c ∷ s) sep (suc (suc n)) =
    let cut = [] ∷ split_n s sep (suc n) in
    let more = extend c (split_n s sep (suc (suc n))) in if c == sep then cut else more

-- strings.Join(parts, sep)
unfoldable pub join : List Bytes → ℕ → Bytes
join [] sep = []
join (p ∷ []) sep = p
join (p ∷ q ∷ ps) sep = p ++ sep ∷ join (q ∷ ps) sep

-- strings.Contains(s, c) for a one-byte c
unfoldable pub contains : Bytes → ℕ → Bool
contains [] c = false
contains (d ∷ s) c = d == c || contains s c

-- strings.ContainsAny(s, chars)
unfoldable pub contains_any : Bytes → Bytes → Bool
unfolding contains
contains_any [] chars = false
contains_any (d ∷ s) chars = contains chars d || contains_any s chars

-- strings.HasPrefix(s, p)
unfoldable pub has_prefix : Bytes → Bytes → Bool
has_prefix s [] = true
has_prefix [] (d ∷ p) = false
has_prefix (c ∷ s) (d ∷ p) = c == d && has_prefix s p

-- strings.HasSuffix(s, p)
unfoldable pub has_suffix : Bytes → Bytes → Bool
unfolding has_prefix
has_suffix s p = has_prefix (reverse s) (reverse p)

-- strings.TrimPrefix(s, p)
unfoldable pub trim_prefix : Bytes → Bytes → Bytes
unfolding has_prefix
trim_prefix s p = if has_prefix s p then drop (length p) s else s

-- strings.TrimSuffix(s, c) for a one-byte c
unfoldable pub trim_suffix : Bytes → ℕ → Bytes
trim_suffix [] c = []
trim_suffix (d ∷ []) c = if d == c then [] else d ∷ []
trim_suffix (d ∷ e ∷ s) c = d ∷ trim_suffix (e ∷ s) c

-- strings.TrimLeft(s, c), strings.TrimRight(s, c) and strings.Trim(s, c) for a one-byte c
unfoldable pub trim_left : Bytes → ℕ → Bytes
trim_left [] c = []
trim_left (d ∷ s) c = let rest = trim_left s c in if d == c then rest else d ∷ s

-- Nothing is left of a part that holds only the byte c.
unfoldable pub trim_right : Bytes → ℕ → Bytes
trim_right [] c = []
trim_right (d ∷ s) c = elim (trim_right s c) [
  | [] ↦ if d == c then [] else d ∷ []
  | e ∷ t ↦ d ∷ e ∷ t
]

unfoldable pub trim : Bytes → ℕ → Bytes
unfolding trim_left trim_right
trim s c = trim_right (trim_left s c) c

-- strings.Replace(s, a, b, -1) for one-byte a and b
unfoldable pub replace : Bytes → ℕ → ℕ → Bytes
replace [] a b = []
replace (c ∷ s) a b = (if c == a then b else c) ∷ replace s a b

-- strings.Replace(s, a, "", -1) for a one-byte a
unfoldable pub remove_all : Bytes → ℕ → Bytes
remove_all [] a = []
remove_all (c ∷ s) a = let rest = remove_all s a in if c == a then rest else c ∷ rest

-- The bytes of a white space rune that the text begins with, 0 if it begins with none: the ASCII
-- blanks, U+0085, U+00A0, U+1680, U+2000 to U+200A, U+2028, U+2029, U+202F, U+205F, U+3000 in UTF-8.
ascii_space : ℕ → Bool
ascii_space c = (leb 9 c && leb c 13) || c == 32

two_space : ℕ → ℕ → Bool
two_space a b = a == 0xc2 && (b == 0x85 || b == 0xa0)

three_space : ℕ → ℕ → ℕ → Bool
three_space a b c =
    (a == 0xe1 && b == 0x9a && c == 0x80)
    || (a == 0xe2
        && b == 0x80
        && ((leb 0x80 c && leb c 0x8a) || c == 0xa8 || c == 0xa9 || c == 0xaf))
    || (a == 0xe2 && b == 0x81 && c == 0x9f)
    || (a == 0xe3 && b == 0x80 && c == 0x80)

space_len : Bytes → ℕ
unfolding ascii_space two_space three_space
space_len [] = 0
space_len (a ∷ []) = if ascii_space a then 1 else 0
space_len (a ∷ b ∷ []) = if ascii_space a then 1 else if two_space a b then 2 else 0
space_len (a ∷ b ∷ c ∷ s) =
    if ascii_space a then 1 else if two_space a b then 2 else if three_space a b c then 3 else 0

-- The same for a reversed text, whose runes end first.
space_len_back : Bytes → ℕ
unfolding ascii_space two_space three_space
space_len_back [] = 0
space_len_back (a ∷ []) = if ascii_space a then 1 else 0
space_len_back (a ∷ b ∷ []) = if ascii_space a then 1 else if two_space b a then 2 else 0
space_len_back (a ∷ b ∷ c ∷ s) =
    if ascii_space a then 1 else if two_space b a then 2 else if three_space c b a then 3 else 0

-- `skip` counts the bytes of the current blank that are still to be dropped.
skip_spaces : (Bytes → ℕ) → ℕ → Bytes → Bytes
skip_spaces len skip [] = []
skip_spaces len (suc skip) (c ∷ s) = skip_spaces len skip s
skip_spaces len zero (c ∷ s) =
    let rest = skip_spaces len (len (c ∷ s) - 1) s in if len (c ∷ s) == 0 then c ∷ s else rest

unfoldable pub trim_left_space : Bytes → Bytes
unfolding skip_spaces space_len
trim_left_space s = skip_spaces space_len 0 s

-- strings.TrimSpace(s)
unfoldable pub trim_space : Bytes → Bytes
unfolding trim_left_space skip_spaces space_len_back
trim_space s = reverse (skip_spaces space_len_back 0 (reverse (trim_left_space s)))

-- strings.Contains(s, t)
unfoldable pub contains_text : Bytes → Bytes → Bool
contains_text [] t = has_prefix [] t
contains_text (c ∷ s) t = has_prefix (c ∷ s) t || contains_text s t

-- strings.TrimRight(s, cutset)
unfoldable pub trim_right_any : Bytes → Bytes → Bytes
trim_right_any [] cut = []
trim_right_any (d ∷ s) cut = elim (trim_right_any s cut) [
  | [] ↦ if contains cut d then [] else d ∷ []
  | e ∷ t ↦ d ∷ e ∷ t
]

-- strings.Split(s, t) for a longer separator: the count is of the bytes of it that are still to be
-- dropped.
unfoldable pub split_behind : ℕ → Bytes → Bytes → List Bytes
split_behind k [] t = [] ∷ []
split_behind (suc k) (c ∷ s) t = split_behind k s t
split_behind zero (c ∷ s) t =
    let cut = [] ∷ split_behind (length t - 1) s t in
    let more = extend c (split_behind zero s t) in if has_prefix (c ∷ s) t then cut else more

abbrev pub split_text : Bytes → Bytes → List Bytes
split_text = split_behind 0
