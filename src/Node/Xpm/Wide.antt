-- ===== src/Node/Xpm/Wide.antt =====
-- ii-node/xpm.go: images without "static char " and with more than one character for a pixel.
use ii_go.Base.{
  ltb, ◌==◌, if◌then◌else◌, Bool-cases, Option-cases, length, take, All, Bytes, codes, ℤ, pos,
  negsuc, Result, ok, ℕ, zero, suc, ◌+◌, ◌≡◌, refl, ◌⊎◌, inl, inr, true, false, Option, none, some,
  List, [], ◌∷◌, arith,
}
use ii_go.Dict
use ii_go.Node.Xpm.{
  Color, Reader, Outcome, next, reject, magic, reaches, is_zero, is_positive, fewer, sized,
  describe, color_of, add_color, paint, painted, paint_row, read_text, read_line, result, go_on,
  read_lines, parse_xpm,
}
use ii_go.Strings.{split, replace, contains_text, split_text}
use ii_go.Decimal.{scan_int64}
use ii_go.Db.State.{Panic}

module _ {Image : Type 0} (new_rgba : ℤ → ℤ → Option Image) (set : ℕ → ℕ → Color → Image → Image)
    (scan_color : Bytes → Option Color) where
  -- A row of such an image is never finished: its last pixel stands beyond the end.
  paint_row-reject :
      (r : Reader Image) (done : Option Image → Outcome Image) (i k : ℕ) (c : ℕ) (s : Bytes)
      (img : Image)
      → r.cpp ≡ pos (suc (suc k))
      → paint_row new_rgba set scan_color r done i (c ∷ s) (some img) ≡ reject
  unfolding paint_row paint painted
  paint_row-reject r done i k c [] img e = rw (paint_row, e) (ground arith)
  paint_row-reject r done i k c (d ∷ s) img e =
      elim (Bool-cases (ltb (length (c ∷ d ∷ s)) (suc (suc k)))) [
        | inl short ↦ rw (paint_row, e, short)
        | inr long ↦ elim (Option-cases (Dict.get r.pal (take (suc (suc k)) (c ∷ d ∷ s)))) [
          | inl missing ↦ rw (paint_row, e, long, missing)
          | inr (color, found) ↦
              rw (paint_row, e, long, found) (paint_row-reject r done (i + 1) k d s _ e)
        ]
      ]

  -- What the reader knows behind the description of such an image, and before its first row.
  record IsWide (k m : ℕ) (r : Reader Image) : Type 0 where
    started : r.start ≡ true
    text_form : r.cformat ≡ false
    pixel : r.cpp ≡ pos (suc (suc k))
    height : r.h ≡ pos (suc m)
    first : r.y ≡ 0
    described : is_zero r.cols ≡ false
    image : Image
    has_image : r.img ≡ some image

  abbrev IsOpen : ℕ → ℕ → Outcome Image → Type 0
  IsOpen k m o = (o ≡ reject) ⊎ ((q : Reader Image) × (o ≡ next q) × IsWide k m q)

  fewer-is_zero : (z : ℤ) → is_zero (fewer z) ≡ false
  fewer-is_zero (pos zero) = refl
  fewer-is_zero (pos (suc zero)) = refl
  fewer-is_zero (pos (suc (suc n))) = ground arith
  fewer-is_zero (negsuc n) = refl

  add_color-IsOpen :
      (k m : ℕ) (r : Reader Image) (parts : List Bytes)
      → IsWide k m r
      → IsOpen k m (add_color new_rgba set scan_color r parts)
  unfolding add_color
  add_color-IsOpen k m r (key ∷ text ∷ []) w =
      elim (Option-cases (color_of new_rgba set scan_color text)) [
        | inl e ↦ inl (rw (add_color, e))
        | inr (c, e) ↦ inr (
          record r { pal = Dict.put r.pal key c; cols = fewer r.cols },
          rw (add_color, e),
          record {
            started = w.started;
            text_form = w.text_form;
            pixel = w.pixel;
            height = w.height;
            first = w.first;
            described = fewer-is_zero r.cols;
            image = w.image;
            has_image = w.has_image;
          },
        )
      ]
  add_color-IsOpen k m r [] w = inl refl
  add_color-IsOpen k m r (a ∷ []) w = inl refl
  add_color-IsOpen k m r (a ∷ b ∷ c ∷ d) w = inl refl

  unreached : (k m : ℕ) (r : Reader Image) → IsWide k m r → reaches r.y r.h ≡ false
  unreached k m r w = rw (w.height, w.first) (ground arith)

  read_text-IsOpen :
      (k m : ℕ) (r : Reader Image) (c : ℕ) (s : Bytes)
      → IsWide k m r
      → IsOpen k m (read_text new_rgba set scan_color r (c ∷ s))
  unfolding read_text
  read_text-IsOpen k m r c s w = elim (Bool-cases (is_positive r.cols)) [
    | inl e ↦ rw (w.described, e) (add_color-IsOpen k m r (split_text (c ∷ s) (codes " c ")) w)
    | inr e ↦ inl (
        rw (read_text, w.described, e, unreached k m r w, w.has_image)
          (paint_row-reject _ _ 0 k c s w.image w.pixel))
  ]

  as_text :
      {k m : ℕ} {r : Reader Image}
      → IsWide k m r
      → IsWide k m (record r { start = true; cformat = false })
  as_text w = record {
    started = refl;
    text_form = refl;
    pixel = w.pixel;
    height = w.height;
    first = w.first;
    described = w.described;
    image = w.image;
    has_image = w.has_image;
  }

  read_line-IsOpen :
      (k m : ℕ) (r : Reader Image) (c : ℕ) (s : Bytes)
      → contains_text (c ∷ s) (codes "static char ") ≡ false
      → IsWide k m r
      → IsOpen k m (read_line new_rgba set scan_color r (c ∷ s))
  unfolding read_line replace
  read_line-IsOpen k m r c s plain w =
      rw (w.started, plain, w.text_form)
        (read_text-IsOpen k m _ (if c == b'\t' then b' ' else c) (replace s b'\t' b' ') (as_text w))

  -- The lines behind the description: none is empty, and none has "static char ".
  abbrev pub IsPlain : Bytes → Type 0
  IsPlain [] = ⊥
  IsPlain (c ∷ s) = contains_text (c ∷ s) (codes "static char ") ≡ false

  go_on-IsOpen :
      (k m : ℕ) (rest : Reader Image → ℕ → Result Panic (Option Image × ℕ)) (nr : ℕ)
      (o : Outcome Image)
      → ((q : Reader Image) → IsWide k m q → rest q (nr + 1) ≡ ok (none, 0))
      → IsOpen k m o
      → go_on new_rgba set scan_color rest nr o ≡ ok (none, 0)
  unfolding go_on
  go_on-IsOpen k m rest nr o ih (inl e) = rw e
  go_on-IsOpen k m rest nr o ih (inr (q, e, w)) = rw e (ih q w)

  read_lines-none :
      (k m : ℕ) (ls : List Bytes) (r : Reader Image) (nr : ℕ)
      → All IsPlain ls
      → IsWide k m r
      → read_lines new_rgba set scan_color ls r nr ≡ ok (none, 0)
  unfolding read_lines result
  read_lines-none k m [] r nr plain w = rw (result, unreached k m r w)
  read_lines-none k m ([] ∷ ls) r nr (bad, plain) w = elim bad [ ]
  read_lines-none k m ((c ∷ s) ∷ ls) r nr (p, plain) w =
      go_on-IsOpen k m (read_lines new_rgba set scan_color ls) nr _
        (λ q v. read_lines-none k m ls q (nr + 1) plain v) (read_line-IsOpen k m r c s p w)

  -- The words of a description of such an image, which the reader makes.
  pub record IsWideDescription (desc : Bytes) : Type 0 where
    pub plain : contains_text desc (codes "static char ") ≡ false
    pub width_word : Bytes
    pub height_word : Bytes
    pub cols_word : Bytes
    pub cpp_word : Bytes
    pub words :
        split (replace desc b'\t' b' ') b' ' ≡ width_word ∷ height_word ∷ cols_word ∷ cpp_word ∷ []
    pub width : ℤ
    pub lines : ℕ
    pub colors : ℕ
    pub more : ℕ
    pub has_width : scan_int64 width_word ≡ some width
    pub has_height : scan_int64 height_word ≡ some (pos (suc lines))
    pub has_colors : scan_int64 cols_word ≡ some (pos (suc colors))
    pub has_cpp : scan_int64 cpp_word ≡ some (pos (suc (suc more)))
    pub picture : Image
    pub made : new_rgba width (pos (suc lines)) ≡ some picture

  -- Lines the first of which begins an image and the second of which describes it, where no line behind the first
  -- has "static char " and no line behind the description is empty: if the description has four numbers, those of the rows and of the colors are above 0, that of the
  -- characters for a pixel is above 1, and the image can be made, then ParseXpm answers that there is no image,
  -- whatever its palette and its rows are.
  pub parse_xpm-wide :
      (top desc : Bytes) (ls : List Bytes)
      → magic top ≡ true
      → IsWideDescription desc
      → All IsPlain ls
      → parse_xpm new_rgba set scan_color (top ∷ desc ∷ ls) ≡ ok (none, 0)
  unfolding parse_xpm read_lines read_line read_text describe sized go_on
  parse_xpm-wide top desc ls m d plain =
      rw (m, d.plain, d.words, d.has_width, d.has_height, d.has_colors, d.has_cpp, sized, d.made)
        (read_lines-none d.more d.lines ls _ 2 plain (record {
          started = refl;
          text_form = refl;
          pixel = refl;
          height = refl;
          first = refl;
          described = ground arith;
          image = d.picture;
          has_image = refl;
        }))
