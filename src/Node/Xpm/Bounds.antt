-- ===== src/Node/Xpm/Bounds.antt =====
-- ii-node/xpm.go: how many lines an image takes.
use ii_go.Base.{
  Bool-cases, length, Bytes, ℤ, Result, ok, ℕ, suc, ◌+◌, ◌≤◌, ◌<◌, ◌≡◌, ◌⊎◌, inl, inr, Option, some,
  List, [], ◌∷◌, arith,
}
use ii_go.Node.Xpm.{
  Color, Reader, Outcome, next, reject, stop, crash, reaches, read_line, result, go_on, read_lines,
  parse_xpm,
}
use ii_go.Db.State.{Panic}

module _ {Image : Type 0} (new_rgba : ℤ → ℤ → Option Image) (set : ℕ → ℕ → Color → Image → Image)
    (scan_color : Bytes → Option Color) where
  result-count :
      (r : Reader Image) (nr : ℕ) {img : Image} {n : ℕ}
      → result new_rgba set scan_color r nr ≡ ok (some img, n)
      → (n ≡ nr) × (r.img ≡ some img)
  unfolding result
  result-count r nr {img} {n} h = elim (Bool-cases (reaches r.y r.h)) [
    | inl e ↦ let same = rw e at h in (cc same, cc same)
    | inr e ↦ let same = rw e at h in cc same
  ]

  abbrev Counted : Reader Image → Image → ℕ → ℕ → ℕ → Type 0
  Counted r img nr left n = ((n ≡ nr) × (r.img ≡ some img)) ⊎ ((nr < n) × (n ≤ nr + left))

  go_on-count :
      (left : ℕ) (r : Reader Image) (nr : ℕ) (o : Outcome Image) {img : Image} {n : ℕ}
      (rest : Reader Image → ℕ → Result Panic (Option Image × ℕ))
      → ((q : Reader Image) (k : ℕ) → rest q k ≡ ok (some img, n) → Counted q img k left n)
      → go_on new_rgba set scan_color rest nr o ≡ ok (some img, n)
      → Counted r img nr (suc left) n
  unfolding go_on
  go_on-count left r nr (next q) rest ih h = elim (ih q (nr + 1) h) [
    | inl now ↦ inr (omega arith, omega arith)
    | inr later ↦ inr (omega arith, omega arith)
  ]
  go_on-count left r nr reject rest ih h = cc
  go_on-count left r nr (stop q) rest ih h =
      let (e, i) = result-count q (nr + 1) h in inr (omega arith, omega arith)
  go_on-count left r nr (crash p) rest ih h = cc

  read_lines-count :
      (ls : List Bytes) (r : Reader Image) (nr : ℕ) {img : Image} {n : ℕ}
      → read_lines new_rgba set scan_color ls r nr ≡ ok (some img, n)
      → Counted r img nr (length ls) n
  unfolding read_lines
  read_lines-count [] r nr h = inl (result-count r nr h)
  read_lines-count (l ∷ ls) r nr h =
      go_on-count (length ls) r nr (read_line new_rgba set scan_color r l)
        (read_lines new_rgba set scan_color ls) (λ q k e. read_lines-count ls q k e) h

  -- An image that ParseXpm returns takes at least one of the lines, and no more than there are.
  parse_xpm-count :
      (ls : List Bytes) {img : Image} {n : ℕ}
      → parse_xpm new_rgba set scan_color ls ≡ ok (some img, n)
      → (1 ≤ n) × (n ≤ length ls)
  unfolding parse_xpm
  parse_xpm-count ls {img} {n} h = elim (read_lines-count ls _ 0 h) [
    | inl now ↦ cc (now.1)
    | inr later ↦ omega arith
  ]
