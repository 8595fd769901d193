-- ===== src/Node/Xpm.antt =====
-- ii-node/xpm.go: ParseXpm. Images are of Go's package image: `new_rgba` makes one of a width and a
-- height, `none` being its panic, and `set` writes a pixel. `scan_color` is fmt's reading of
-- "#%02x%02x%02x", `none` unless all three numbers are read.
pub mod Bounds
pub mod Wide
mod Tests
use ii_go.Base.{
  ltb, leb, ◌==◌, if◌then◌else◌, length, take, Bytes, codes, str_eq, ℤ, pos, negsuc, Result, ok,
  err, ℕ, zero, suc, ◌+◌, ◌/◌, Bool, true, false, ◌&&◌, ◌||◌, not, Option, none, some, List, [],
  ◌∷◌,
}
use ii_go.Dict
use ii_go.Decimal.{scan_int64}
use ii_go.Strings.{
  split, has_prefix, has_suffix, trim, replace, contains_text, trim_right_any, split_text,
}
use ii_go.Db.State.{Panic, nil_pointer, index_out_of_range, divide_by_zero, huge_image}

pub record Color : Type 0 where
  pub red : ℕ
  pub green : ℕ
  pub blue : ℕ
  pub alpha : ℕ

-- The variables of the loop.
pub record Reader (Image : Type 0) : Type 0 where
  pub img : Option Image
  pub start : Bool
  pub cformat : Bool
  pub last : Bool
  pub pal : List (Bytes × Color)
  pub h : ℤ
  pub cols : ℤ
  pub cpp : ℤ
  pub y : ℕ

-- How the body of the loop ends: with the next line, with `return nil, 0`, with a break, or with a panic.
pub data Outcome (Image : Type 0) : Type 0 where
  next : Reader Image → Outcome Image
  reject : Outcome Image
  stop : Reader Image → Outcome Image
  crash : Panic → Outcome Image

abbrev pub magic : Bytes → Bool
magic l = has_prefix l (codes "/* XPM */") || has_prefix l (codes "! XPM2")

-- `y >= h`
abbrev pub reaches : ℕ → ℤ → Bool
reaches y (pos h) = leb h y
reaches y (negsuc n) = true

abbrev pub is_zero : ℤ → Bool
is_zero (pos n) = n == 0
is_zero (negsuc n) = false

abbrev pub is_positive : ℤ → Bool
is_positive (pos n) = not (n == 0)
is_positive (negsuc n) = false

-- `cols--`, and -1 when the last color is read
abbrev pub fewer : ℤ → ℤ
fewer (pos zero) = negsuc 0
fewer (pos (suc zero)) = negsuc 0
fewer (pos (suc (suc n))) = pos (suc n)
fewer (negsuc n) = negsuc (suc n)

-- The lines of a C file, without what surrounds the text.
unfoldable pub unquoted : Bool → Bytes → Bytes
unquoted last l =
    let s = trim_right_any (if last then trim_right_any l (codes "};") else l) (codes ",") in
    trim s b'"'

module _ {Image : Type 0} (new_rgba : ℤ → ℤ → Option Image) (set : ℕ → ℕ → Color → Image → Image)
    (scan_color : Bytes → Option Color) where
  -- The description line.
  unfoldable pub sized : Reader Image → Option ℤ → Option ℤ → Option ℤ → Option ℤ → Outcome Image
  sized r (some w) (some h) (some cols) (some cpp) = elim (new_rgba w h) [
    | none ↦ crash huge_image
    | some i ↦ next (record r { img = some i; h = h; cols = cols; cpp = cpp })
  ]
  sized r _ _ _ _ = reject

  unfoldable pub describe : Reader Image → List Bytes → Outcome Image
  describe r (w ∷ h ∷ cols ∷ cpp ∷ []) =
      sized r (scan_int64 w) (scan_int64 h) (scan_int64 cols) (scan_int64 cpp)
  describe r _ = reject

  -- A line of the palette.
  unfoldable pub color_of : Bytes → Option Color
  color_of text = elim (scan_color text) [
    | some c ↦ some c
    | none ↦
        if str_eq text (codes "None")
        then some (record { red = 255; green = 255; blue = 255; alpha = 0 })
        else none
  ]

  unfoldable pub add_color : Reader Image → List Bytes → Outcome Image
  add_color r (key ∷ text ∷ []) = elim (color_of text) [
    | none ↦ reject
    | some c ↦ next (record r { pal = Dict.put r.pal key c; cols = fewer r.cols })
  ]
  add_color r _ = reject

  -- `img.Set(i/cpp, y, rgba)`
  unfoldable pub paint : ℕ → ℕ → ℕ → Color → Option Image → Result Panic (Option Image)
  paint i zero y c img = err divide_by_zero
  paint i (suc k) y c none = err nil_pointer
  paint i (suc k) y c (some img) = ok (some (set (i / suc k) y c img))

  unfoldable pub painted :
      (Option Image → Outcome Image) → Result Panic (Option Image) → Outcome Image
  painted rest (err p) = crash p
  painted rest (ok img) = rest img

  -- The loop over a row, from the column i on; `done` is what follows it.
  unfoldable pub paint_row :
      Reader Image → (Option Image → Outcome Image) → ℕ → Bytes → Option Image → Outcome Image
  paint_row r done i [] img = done img
  paint_row r done i (c ∷ s) img =
      let rest = paint_row r done (i + 1) s in
      elim r.cpp [
        | negsuc n ↦ crash index_out_of_range
        | pos k ↦
            if ltb (length (c ∷ s)) k then reject else elim (Dict.get r.pal (take k (c ∷ s))) [
              | none ↦ reject
              | some color ↦ painted rest (paint i k r.y color img)
            ]
      ]

  -- `y++`, and what follows it.
  unfoldable pub row_done : Reader Image → Option Image → Outcome Image
  row_done r img =
      let q = record r { img = img; y = r.y + 1 } in
      if reaches q.y q.h && (not r.cformat || r.last) then stop q else next q

  unfoldable pub read_text : Reader Image → Bytes → Outcome Image
  read_text r l =
      if is_zero r.cols
      then describe r (split l b' ')
      else if is_positive r.cols
      then add_color r (split_text l (codes " c "))
      else if reaches r.y r.h && has_prefix l (codes "}")
      then stop r
      else paint_row r (row_done r) 0 l r.img

  -- The body of the loop, on a line.
  unfoldable pub read_line : Reader Image → Bytes → Outcome Image
  read_line r l =
      if not r.start
      then next (if magic l then record r { start = true } else r)
      else if contains_text l (codes "static char ")
      then next (record r { cformat = true })
      else if not r.cformat
      then read_text r (replace l b'\t' b' ')
      else if has_prefix l (codes "/*") || has_prefix l (codes "//")
      then next r
      else (let last = has_suffix l (codes "};") in
          read_text (record r { last = r.last || last }) (replace (unquoted last l) b'\t' b' '))

  -- What is returned behind the loop.
  unfoldable pub result : Reader Image → ℕ → Result Panic (Option Image × ℕ)
  result r nr = if not (reaches r.y r.h) then ok (none, 0) else ok (r.img, nr)

  unfoldable pub go_on :
      (Reader Image → ℕ → Result Panic (Option Image × ℕ))
      → ℕ
      → Outcome Image
      → Result Panic (Option Image × ℕ)
  go_on rest nr (next q) = rest q (nr + 1)
  go_on rest nr reject = ok (none, 0)
  go_on rest nr (stop q) = result q (nr + 1)
  go_on rest nr (crash p) = err p

  unfoldable pub read_lines : List Bytes → Reader Image → ℕ → Result Panic (Option Image × ℕ)
  read_lines [] r nr = result r nr
  read_lines (l ∷ ls) r nr = go_on (read_lines ls) nr (read_line r l)

  abbrev pub initial : Reader Image
  initial = record {
    img = none;
    start = false;
    cformat = false;
    last = false;
    pal = [];
    h = pos 0;
    cols = pos 0;
    cpp = pos 0;
    y = 0;
  }

  -- ParseXpm
  unfoldable pub parse_xpm : List Bytes → Result Panic (Option Image × ℕ)
  parse_xpm ls = read_lines ls initial 0
