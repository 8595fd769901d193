-- ===== src/Node/Texts.antt =====
-- ii-node/web.go: the texts of messages, as they are shown, quoted, shortened and attached. Images are of
-- Go's package image, and `png` is png.Encode, `none` for an error.
pub mod Attached
mod Tests
use ii_go.Base.{
  ltb, ◌==◌, if◌then◌else◌, length, take, Bytes, codes, str_eq, ℤ, Result, ok, err, ℕ, zero, suc,
  ◌-◌, ◌/◌, Bool, true, false, ◌&&◌, ◌||◌, not, Option, none, some, List, [], ◌∷◌, ◌++◌, reverse,
}
use ii_go.Strings.{split, has_prefix, has_suffix, trim_prefix, trim}
use ii_go.Strings.Runes.{runes, string_of}
use ii_go.Base64
use ii_go.Msg.Encode.{Msg}
use ii_go.Db.State.{Panic, index_out_of_range}
use ii_go.Node.Html.{str_esc, msg_clean}
use ii_go.Node.Links.{msg_esc}
use ii_go.Node.Xpm.{Color, magic, parse_xpm}

-- quoteRegex: ^[^ >]*>
unfoldable pub is_quote : Bytes → Bool
is_quote [] = false
is_quote (c ∷ s) = c == b'>' || (not (c == b' ') && is_quote s)

-- l[:s] + ">>" + l[s+1:] for the first > at s
unfoldable pub deeper : Bytes → Bytes
deeper [] = []
deeper (c ∷ s) = let rest = deeper s in if c == b'>' then b'>' ∷ b'>' ∷ s else c ∷ rest

-- []rune(name)[0]
unfoldable pub initial_of : Bytes → Result Panic Bytes
initial_of name = elim (runes name) [ [] ↦ err index_out_of_range | r ∷ rs ↦ ok r ]

unfoldable pub both : Result Panic Bytes → Result Panic Bytes → Result Panic Bytes
both (err p) b = err p
both (ok a) (err p) = err p
both (ok a) (ok b) = ok (a ++ b)

unfoldable pub initials : Bytes → List Bytes → Result Panic Bytes
initials from (a ∷ b ∷ names) = both (initial_of a) (initial_of b)
initials from _ = ok from

unfoldable pub quote_line : Bytes → Bytes → Bytes
quote_line from l =
    if str_eq (trim l b' ') [] then l else if is_quote l then deeper l else from ++ codes "> " ++ l

unfoldable pub quote_lines : Bytes → List Bytes → Bytes
quote_lines from [] = []
quote_lines from (l ∷ lines) = quote_line from l ++ b'\n' ∷ quote_lines from lines

-- msg_quote
unfoldable pub msg_quote : Bytes → Bytes → Result Panic Bytes
msg_quote txt from = elim (initials from (split from b' ')) [
  | err p ↦ err p
  | ok f ↦ ok (quote_lines f (split (msg_clean txt) b'\n'))
]

-- ReverseStr
unfoldable pub reverse_str : Bytes → Bytes
reverse_str s = string_of (reverse (runes s))

-- trunc
unfoldable pub trunc : Bytes → ℕ → Bytes
trunc str limit = if ltb limit (length (runes str)) then string_of (take limit (runes str)) else str

unfoldable pub any_prefix : Bytes → List Bytes → Bool
any_prefix l [] = false
any_prefix l (p ∷ ps) = has_prefix l p || any_prefix l ps

unfoldable pub span : Bytes → Bytes → Bytes
span class text = codes "<span class=\"" ++ class ++ codes "\">" ++ text ++ codes "</span>"

-- A line of another kind than those of trunc_line below.
unfoldable pub styled : Bytes → Result Panic Bytes
styled l =
    if any_prefix l (codes "P.S." ∷ codes "PS:" ∷ codes "//" ∷ codes "+++ " ∷ [])
    then ok (span (codes "comment") (str_esc l))
    else if any_prefix l
        (codes "# " ∷ codes "= " ∷ codes "## " ∷ codes "== " ∷ codes "### " ∷ codes "=== " ∷ [])
    then ok (span (codes "header") (str_esc l))
    else if has_prefix l (codes "@spoiler:")
    then ok (span (codes "spoiler") (str_esc (reverse_str l)))
    else if is_quote l
    then ok (span (codes "quote") (str_esc l))
    else msg_esc l

unfoldable pub file_name : Bytes → Bytes
file_name l =
    let name = trim (trim_prefix l (codes "@base64:")) b' ' in
    if str_eq name [] then codes "file" else name

unfoldable pub attach_link : Bytes → Bytes → Bytes
attach_link id name =
    codes "<a class=\"attach\" href=\"/"
    ++ id
    ++ codes "/base64\">"
    ++ str_esc name
    ++ codes "</a><br>\n"

unfoldable pub image_link : Bytes → Bytes → Bytes
image_link id name =
    codes "<img class=\"img\" alt=\""
    ++ str_esc name
    ++ codes "\" src=\"/"
    ++ id
    ++ codes "/base64\">\n"

unfoldable pub is_picture : Bytes → Bool
is_picture name =
    has_suffix name (codes ".png")
    || has_suffix name (codes ".jpg")
    || has_suffix name (codes ".gif")

-- The line that begins an attached file: nothing behind it is shown.
unfoldable pub attached : Bytes → Bytes → Bytes
attached id l =
    let name = file_name l in
    attach_link id name ++ (if is_picture name then image_link id name else attach_link id name)

-- How the body of the loop over the lines ends: with the next line, behind as many more lines, inside a pre
-- block or not; with the text that is returned; or with a panic.
pub data LineStep : Type 0 where
  go : ℕ → Bool → Bytes → LineStep
  done : Bytes → LineStep
  fails : Panic → LineStep

-- `len(f) > maxlen`; nothing is cut off at 0.
unfoldable pub is_long : ℕ → Bytes → Bool
is_long maxlen f = not (maxlen == 0) && ltb maxlen (length f)

unfoldable pub cut_off : Bytes → Bytes → Bytes
cut_off more f = f ++ more ++ codes "<br>\n"

-- The end of the body: the line is appended.
unfoldable pub append_line : ℕ → Bytes → Bytes → Result Panic Bytes → LineStep
append_line maxlen more f (err p) = fails p
append_line maxlen more f (ok l) =
    if is_long maxlen (f ++ l)
    then done (cut_off more (f ++ l))
    else go 0 false (f ++ l ++ codes "<br>\n")

unfoldable pub pre_line : ℕ → Bytes → Bytes → Bytes → LineStep
pre_line maxlen more f l =
    let g = f ++ str_esc l ++ b'\n' ∷ [] in
    if is_long maxlen g then done (cut_off more (g ++ codes "</pre>\n")) else go 0 true g

module _ {Image : Type 0} (new_rgba : ℤ → ℤ → Option Image) (set : ℕ → ℕ → Color → Image → Image)
    (scan_color : Bytes → Option Color) (png : Image → Option Bytes) (id : Bytes) (maxlen : ℕ)
    (more : Bytes) where
  unfoldable pub image_line : Bytes → Bytes → Option Bytes → ℕ → LineStep
  image_line f l none n = append_line maxlen more f (msg_esc l)
  image_line f l (some b) n = go (n - 1) false (
      f
      ++ codes "<img class=\"img\" src=\"data:image/png;base64,"
      ++ Base64.encode Base64.std b
      ++ codes "\"><br>\n")

  unfoldable pub xpm_line : Bytes → Bytes → Result Panic (Option Image × ℕ) → LineStep
  xpm_line f l (err p) = fails p
  xpm_line f l (ok (none, n)) = append_line maxlen more f (msg_esc l)
  xpm_line f l (ok (some img, n)) = image_line f l (png img) n

  -- The body of the loop, on a line and those behind it.
  unfoldable pub trunc_line : Bytes → List Bytes → Bool → Bytes → LineStep
  trunc_line l lines pre f =
      if str_eq (trim l b' ') (codes "====")
      then go 0 (not pre) (f ++ (if pre then codes "</pre>\n" else codes "<pre class=\"code\">\n"))
      else if pre
      then pre_line maxlen more f l
      else if magic l
      then xpm_line f l (parse_xpm new_rgba set scan_color (l ∷ lines))
      else if has_prefix l (codes "@base64:") && not (is_quote l)
      then done (f ++ attached id l)
      else append_line maxlen more f (styled l)

  unfoldable pub follow : (ℕ → Bool → Bytes → Result Panic Bytes) → LineStep → Result Panic Bytes
  follow rest (go skip pre f) = rest skip pre f
  follow rest (done f) = ok f
  follow rest (fails p) = err p

  unfoldable pub trunc_lines : List Bytes → ℕ → Bool → Bytes → Result Panic Bytes
  trunc_lines [] skip pre f = ok (f ++ (if pre then codes "</pre>\n" else []))
  trunc_lines (l ∷ lines) (suc skip) pre f = trunc_lines lines skip pre f
  trunc_lines (l ∷ lines) zero pre f = follow (trunc_lines lines) (trunc_line l lines pre f)

module _ {Image : Type 0} (new_rgba : ℤ → ℤ → Option Image) (set : ℕ → ℕ → Color → Image → Image)
    (scan_color : Bytes → Option Color) (png : Image → Option Bytes) where
  -- msg_trunc on a message
  unfoldable pub msg_trunc : Msg → ℕ → Bytes → Result Panic Bytes
  msg_trunc m maxlen more =
      trunc_lines new_rgba set scan_color png m.msg_id maxlen more (split (msg_clean m.text) b'\n')
        0 false []

  -- msg_text
  unfoldable pub msg_text : Msg → Result Panic Bytes
  msg_text m = msg_trunc m 0 []
