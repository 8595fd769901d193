-- ===== src/Db/State/Files.antt =====
-- ii/db.go: append_file, the sizes of files, and f_lines.
use ii_go.Base.{
  ℕ, length, drop, length-append, drop-length-append, All, Bytes, Lacks, ◌<◌, ◌≡◌, refl, sym, ap,
  ◌∙◌, ◌≢◌, Option, none, some, List, [], ◌∷◌, ◌++◌, append_assoc, arith,
}
use ii_go.Strings.{split}
use ii_go.Strings.Split.{split-ne-nil, split-append}

-- The contents of a file, none for one that does not exist.
abbrev pub contents : Option Bytes → Bytes
contents none = []
contents (some s) = s

-- filesize: a missing file counts as an empty one.
abbrev pub filesize : Option Bytes → ℕ
filesize f = length (contents f)

-- append_file: the line and a newline; a missing file is created.
unfoldable pub append_file : Option Bytes → Bytes → Option Bytes
append_file f text = some (contents f ++ (text ++ b'\n' ∷ []))

-- All parts but the last.
abbrev pub but_last : List Bytes → List Bytes
but_last [] = []
but_last (p ∷ []) = []
but_last (p ∷ q ∷ ps) = p ∷ but_last (q ∷ ps)

-- The lines that f_lines hands to its callback: those that end in a newline. What stands behind the
-- last newline is read and dropped.
unfoldable pub lines : Bytes → List Bytes
lines s = but_last (split s b'\n')

-- A file of lines.
unfoldable pub text_of : List Bytes → Bytes
text_of [] = []
text_of (l ∷ ls) = l ++ b'\n' ∷ text_of ls

pub text_of-append : (ls ms : List Bytes) → text_of (ls ++ ms) ≡ text_of ls ++ text_of ms
unfolding text_of
text_of-append [] ms = refl
text_of-append (l ∷ ls) ms = simp (text_of-append ls ms, append_assoc)

but_last-cons : (p : Bytes) (ps : List Bytes) → ps ≢ [] → but_last (p ∷ ps) ≡ p ∷ but_last ps
but_last-cons p [] h = absurd (h refl)
but_last-cons p (q ∷ ps) h = refl

-- The lines of a file of lines, up to any unfinished line behind them.
pub lines-text_of : (ls : List Bytes) → All (Lacks b'\n') ls → lines (text_of ls) ≡ ls
unfolding lines text_of
lines-text_of [] h = unfold split in refl
lines-text_of (l ∷ ls) h =
    ap but_last (split-append l (text_of ls) b'\n' h.0)
    ∙ but_last-cons l (split (text_of ls) b'\n') (split-ne-nil (text_of ls) b'\n')
    ∙ ap (λ r. l ∷ r) (lines-text_of ls h.1)

-- The first line of a file from an offset at which a line begins.
pub lines_drop : (ls ms : List Bytes) → drop (length (text_of ls)) (text_of (ls ++ ms)) ≡ text_of ms
lines_drop ls ms =
    ap (drop (length (text_of ls))) (text_of-append ls ms)
    ∙ drop-length-append (text_of ls) (text_of ms)

pub append_file-text_of :
    (ls : List Bytes) (l : Bytes)
    → append_file (some (text_of ls)) l ≡ some (text_of (ls ++ l ∷ []))
unfolding append_file
append_file-text_of ls l = rw (text_of-append ls (l ∷ [])) (unfold text_of in refl)

-- A line appended to a file of lines, which may be missing.
pub append_file-contents :
    (f : Option Bytes) (ls : List Bytes) (l : Bytes)
    → contents f ≡ text_of ls
    → contents (append_file f l) ≡ text_of (ls ++ l ∷ [])
append_file-contents f ls l e =
    unfold append_file text_of in
    ap (λ s. s ++ (l ++ b'\n' ∷ [])) e ∙ sym (text_of-append ls (l ∷ []))

pub length-append_file :
    (f : Option Bytes) (l : Bytes) → length (contents f) < length (contents (append_file f l))
unfolding append_file
length-append_file f l =
    omega (arith, length-append (contents f) (l ++ b'\n' ∷ []), length-append l (b'\n' ∷ []))
