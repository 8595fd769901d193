-- ===== src/Tool/Clean.antt =====
-- ii-tool/main.go, the command clean: the bundle file is read twice; of every id only one line is
-- written to a new file, the last one, at the place of the first.
pub mod Spec
pub mod Laws
pub mod Write
pub mod Correct
use ii_go.Base.{
  ◌==◌, if◌then◌else◌, Bytes, ℤ, pos, negsuc, neg, ℕ, zero, suc, ◌+◌, Bool, true, false, ◌&&◌,
  Option, none, some, List, [], ◌∷◌, ◌++◌,
}
use ii_go.Strings.{split}
use ii_go.Dict
use ii_go.Msg.Valid.{is_msg_id}

-- The id of a line `id:bundle`; other lines are errors, which are reported and skipped.
unfoldable pub id_in : List Bytes → Option Bytes
id_in (id ∷ bundle ∷ []) = if is_msg_id id then some id else none
id_in _ = none

unfoldable pub line_id : Bytes → Option Bytes
line_id line = id_in (split line b':')

-- What pass 1 finds: how often an id occurs, the last line of those that occur more than once, and the
-- number of duplicates.
pub record Counts : Type 0 where
  pub hash : List (Bytes × ℤ)
  pub last : List (Bytes × Bytes)
  pub dup : ℕ

abbrev pub no_counts : Counts
no_counts = record { hash = []; last = []; dup = 0 }

abbrev pub succ : ℤ → ℤ
succ (pos n) = pos (suc n)
succ (negsuc zero) = pos 0
succ (negsuc (suc n)) = negsuc n

unfoldable pub count_id : Bytes → Bytes → Counts → Counts
count_id line id c = elim (Dict.get c.hash id) [
  | none ↦ record c { hash = Dict.put c.hash id (pos 1) }
  | some n ↦ record {
    hash = Dict.put c.hash id (succ n);
    last = Dict.put c.last id line;
    dup = c.dup + 1;
  }
]

unfoldable pub count_line : Bytes → Option Bytes → Counts → Counts
count_line line none c = c
count_line line (some id) c = count_id line id c

unfoldable pub pass1 : List Bytes → Counts → Counts
pass1 [] c = c
pass1 (line ∷ ls) c = pass1 ls (count_line line (line_id line) c)

-- How the command ends: nothing to do, given up since the file has changed, or the new file.
pub data Cleaned : Type 0 where
  no_dups changed shrunk : Cleaned
  written : List Bytes → Cleaned

abbrev pub is_positive : ℤ → Bool
is_positive (pos zero) = false
is_positive (pos (suc n)) = true
is_positive (negsuc n) = false

abbrev pub is_zero : ℤ → Bool
is_zero (pos zero) = true
is_zero (pos (suc n)) = false
is_zero (negsuc n) = false

abbrev pub text_or_empty : Option Bytes → Bytes
text_or_empty none = []
text_or_empty (some s) = s

-- `hash[id] < -1` for a negated count: the id occurs more than once.
abbrev pub below_minus_one : ℤ → Bool
below_minus_one (pos n) = false
below_minus_one (negsuc zero) = false
below_minus_one (negsuc (suc n)) = true

-- The line that is written for an id, which stands for its first record.
unfoldable pub kept_line : Bytes → Bytes → ℤ → List (Bytes × Bytes) → Bytes
kept_line line id n last =
    if below_minus_one (neg n) then text_or_empty (Dict.get last id) else line

-- The state of pass 2: the counts, negative once the first record was written, and the lines written.
pub record Pass2 : Type 0 where
  pub hash : List (Bytes × ℤ)
  pub out : List Bytes

-- `hash[id] += 1`, and the check behind it
unfoldable pub tick : Bytes → ℤ → List Bytes → List (Bytes × ℤ) → Option Pass2
tick id n out hash =
    if is_positive (succ n)
    then none
    else some (record { hash = Dict.put hash id (succ n); out = out })

unfoldable pub seen_id : Bytes → Bytes → List (Bytes × Bytes) → Pass2 → Option ℤ → Option Pass2
seen_id line id last s none = none
seen_id line id last s (some n) =
    if is_zero n
    then none
    else if is_positive n
    then tick id (neg n) (s.out ++ kept_line line id n last ∷ []) (Dict.put s.hash id (neg n))
    else tick id n s.out s.hash

unfoldable pub write_line : Bytes → List (Bytes × Bytes) → Option Bytes → Pass2 → Option Pass2
write_line line last none s = some s
write_line line last (some id) s = seen_id line id last s (Dict.get s.hash id)

-- The callback of pass 2 over the lines; `none` is the exit with an error.
unfoldable pub pass2 : List (Bytes × Bytes) → List Bytes → Pass2 → Option Pass2
pass2 last [] s = some s
pass2 last (line ∷ ls) s = elim (write_line line last (line_id line) s) [
  | none ↦ none
  | some t ↦ pass2 last ls t
]

unfoldable pub all_zero : List (Bytes × ℤ) → Bool
all_zero [] = true
all_zero ((id, n) ∷ hash) = is_zero n && all_zero hash

unfoldable pub checked : Option Pass2 → Cleaned
checked none = changed
checked (some s) = if all_zero s.hash then written s.out else shrunk

-- The command, on the lines as each pass reads them.
unfoldable pub clean : List Bytes → List Bytes → Cleaned
clean first second =
    let c = pass1 first no_counts in
    if c.dup == 0
    then no_dups
    else checked (pass2 c.last second (record { hash = c.hash; out = [] }))
