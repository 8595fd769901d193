-- ===== src/Node/Html.antt =====
-- ii-node/web.go: the escaping of texts for HTML.
use ii_go.Base.{
  ◌==◌, if◌then◌else◌, Bool-cases, All-append, Bytes, codes, Lacks, ℕ, ◌≢◌, inl, inr, [], ◌∷◌, ◌++◌,
  arith,
}
use ii_go.Strings.{trim_left, trim_right, remove_all}

-- strings.Replace(s, c, t, -1) for a single byte
unfoldable pub replace_by : Bytes → ℕ → Bytes → Bytes
replace_by [] c t = []
replace_by (d ∷ s) c t = let rest = replace_by s c t in if d == c then t ++ rest else d ∷ rest

-- str_esc
unfoldable pub str_esc : Bytes → Bytes
str_esc l =
    let l1 = replace_by l b'&' (codes "&amp;") in
    let l2 = replace_by l1 b'<' (codes "&lt;") in replace_by l2 b'>' (codes "&gt;")

-- msg_clean
unfoldable pub msg_clean : Bytes → Bytes
msg_clean txt = trim_right (trim_left (remove_all txt b'\r') b'\n') b'\n'

Lacks-replace_by : (s : Bytes) (c : ℕ) (t : Bytes) → Lacks c t → Lacks c (replace_by s c t)
unfolding replace_by
Lacks-replace_by [] c t h = tt
Lacks-replace_by (d ∷ s) c t h = elim (Bool-cases (d == c)) [
  | inl same ↦ rw same (All-append (λ e. e ≢ c) t (replace_by s c t) h (Lacks-replace_by s c t h))
  | inr other ↦ rw other (ground arith, Lacks-replace_by s c t h)
]

Lacks-replace_by_other :
    (s : Bytes) (b c : ℕ) (t : Bytes) → Lacks b s → Lacks b t → Lacks b (replace_by s c t)
unfolding replace_by
Lacks-replace_by_other [] b c t h k = tt
Lacks-replace_by_other (d ∷ s) b c t h k = elim (Bool-cases (d == c)) [
  | inl same ↦
      rw same
        (All-append (λ e. e ≢ b) t (replace_by s c t) k (Lacks-replace_by_other s b c t h.1 k))
  | inr other ↦ rw other (h.0, Lacks-replace_by_other s b c t h.1 k)
]

-- No text that is escaped holds an angle bracket.
pub Lacks-str_esc : (l : Bytes) → Lacks b'<' (str_esc l) × Lacks b'>' (str_esc l)
unfolding str_esc
Lacks-str_esc l =
    let l1 = replace_by l b'&' (codes "&amp;") in
    let l2 = replace_by l1 b'<' (codes "&lt;") in
    (
      Lacks-replace_by_other l2 b'<' b'>' (codes "&gt;")
          (Lacks-replace_by l1 b'<' (codes "&lt;") (omega arith)) (omega arith),
      Lacks-replace_by l2 b'>' (codes "&gt;") (omega arith),
    )
