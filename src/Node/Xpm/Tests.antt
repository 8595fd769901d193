-- ===== src/Node/Xpm/Tests.antt =====
-- Runs of ParseXpm, and its theorems at concrete inputs. An image is the list of its pixels here.
use ii_go.Base.{
  if◌then◌else◌, Bytes, codes, str_eq, ℤ, pos, ok, err, ℕ, ◌≡◌, refl, true, false, Option, none,
  some, List, [], ◌∷◌, ◌++◌,
}
use ii_go.Strings.{split, has_prefix, replace, contains_text, split_behind}
use ii_go.Decimal.{scan_int64}
use ii_go.Dict
use ii_go.Db.State.{divide_by_zero}
use ii_go.Node.Xpm.{
  Color, magic, sized, describe, color_of, add_color, paint, painted, paint_row, row_done,
  read_text, read_line, result, go_on, read_lines, parse_xpm,
}
use ii_go.Node.Xpm.Wide.{IsWideDescription, parse_xpm-wide}

abbrev Pixels : Type 0
Pixels = List (ℕ × ℕ × Color)

abbrev no_pixels : ℤ → ℤ → Option Pixels
no_pixels w h = some []

abbrev set_pixel : ℕ → ℕ → Color → Pixels → Pixels
set_pixel x y c img = img ++ (x, y, c) ∷ []

abbrev white : Color
white = record { red = 255; green = 255; blue = 255; alpha = 255 }

abbrev clear : Color
clear = record { red = 255; green = 255; blue = 255; alpha = 0 }

abbrev scan_white : Bytes → Option Color
scan_white s = if str_eq s (codes "#ffffff") then some white else none

abbrev dot : List Bytes
dot =
    codes "! XPM2"
    ∷ codes "2 1 2 1"
    ∷ codes "a c #ffffff"
    ∷ codes "b c None"
    ∷ codes "ab"
    ∷ codes "text"
    ∷ []

dotted :
    parse_xpm no_pixels set_pixel scan_white dot ≡ ok (some ((0, 0, white) ∷ (1, 0, clear) ∷ []), 5)
unfolding parse_xpm read_lines read_line read_text describe sized add_color color_of paint_row paint
    painted row_done result go_on has_prefix contains_text replace split scan_int64 str_eq Dict.get
    Dict.put split_behind
dotted = refl

abbrev no_size : List Bytes
no_size = codes "! XPM2" ∷ codes "1 1 1 0" ∷ codes " c #ffffff" ∷ codes "a" ∷ []

crashed : parse_xpm no_pixels set_pixel scan_white no_size ≡ err divide_by_zero
unfolding parse_xpm read_lines read_line read_text describe sized add_color color_of paint_row paint
    painted row_done result go_on has_prefix contains_text replace split scan_int64 str_eq Dict.get
    Dict.put split_behind
crashed = refl

wide_description : IsWideDescription no_pixels set_pixel scan_white (codes "2 1 1 2")
unfolding contains_text has_prefix replace split scan_int64
wide_description = record {
  plain = refl;
  width_word = codes "2";
  height_word = codes "1";
  cols_word = codes "1";
  cpp_word = codes "2";
  words = refl;
  width = pos 2;
  lines = 0;
  colors = 0;
  more = 0;
  has_width = refl;
  has_height = refl;
  has_colors = refl;
  has_cpp = refl;
  picture = [];
  made = refl;
}

plain_lines :
    (contains_text (codes "aa c #ffffff") (codes "static char ") ≡ false)
    × (contains_text (codes "aaaa") (codes "static char ") ≡ false)
unfolding contains_text has_prefix
plain_lines = (refl, refl)

is_magic : magic (codes "! XPM2") ≡ true
unfolding has_prefix
is_magic = refl

parse_xpm-wide_example :
    parse_xpm no_pixels set_pixel scan_white
      (codes "! XPM2" ∷ codes "2 1 1 2" ∷ codes "aa c #ffffff" ∷ codes "aaaa" ∷ [])
    ≡ ok (none, 0)
parse_xpm-wide_example =
    parse_xpm-wide no_pixels set_pixel scan_white (codes "! XPM2") (codes "2 1 1 2")
      (codes "aa c #ffffff" ∷ codes "aaaa" ∷ []) is_magic wide_description
      (plain_lines.0, (plain_lines.1, tt))
