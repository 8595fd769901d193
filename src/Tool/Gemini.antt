-- ===== src/Tool/Gemini.antt =====
-- ii-tool/main.go: the pages for Gemini and the shortened texts. `date_text` is the printing of a date by
-- package time in the zone of the host, and `create` tells whether os.Create makes the file of a path.
pub mod Command
pub mod Files
mod Tests
use ii_go.Base.{
  leb, if◌then◌else◌, length, take, All, Bytes, codes, str_eq, ℤ, pos, ℕ, zero, suc, Bool, true,
  false, ◌&&◌, ◌||◌, not, Option, none, some, List, [], ◌∷◌, ◌++◌,
}
use ii_go.Strings.{split, has_prefix, has_suffix, trim_prefix, trim, replace, remove_all}
use ii_go.Decimal.{print_int}
use ii_go.Base64
use ii_go.Msg.Encode.{Msg}
use ii_go.Node.Html.{msg_clean}
use ii_go.Node.Links.{url}
use ii_go.Tool.Commands.{line_of}

-- A line that the shortened text ends before.
unfoldable pub is_break : Bytes → Bool
is_break l =
    str_eq l (codes "====")
    || has_prefix l (codes "/* XPM */")
    || has_prefix l (codes "! XPM2")
    || has_prefix l (codes "@base64:")

unfoldable pub trunc_lines : ℕ → ℕ → List Bytes → Bytes
trunc_lines max ln [] = []
trunc_lines max ln (v ∷ lines) =
    let rest = trunc_lines max (suc ln) lines in
    let l = remove_all v b'\r' in
    if is_break l
    then []
    else line_of l ++ (if leb max (suc ln) && str_eq l [] then codes "..." else rest)

-- text_trunc
unfoldable pub text_trunc : Bytes → ℕ → Bytes
text_trunc txt max = trunc_lines max 0 (split (msg_clean txt) b'\n')

-- " [%d]", the number of a link behind it.
unfoldable pub number : ℕ → Bytes
number n = codes " [" ++ print_int (pos n) ++ codes "]"

unfoldable pub link_line : Bytes → ℕ → Bytes
link_line s n = codes "=> " ++ s ++ codes " " ++ s ++ number n

-- ReplaceAllFunc with the function that notes a link: `skip` counts the bytes of a match that are still to
-- be dropped. The counter of the links is their number.
unfoldable pub cite : ℕ → Bytes → List Bytes → Bytes × List Bytes
cite skip [] links = ([], links)
cite (suc skip) (c ∷ s) links = cite skip s links
cite zero (c ∷ s) links = elim (url (c ∷ s)) [
  | zero ↦ (let (t, all) = cite zero s links in (c ∷ t, all))
  | suc n ↦
      (let found = take (suc n) (c ∷ s) in
        let (t, all) = cite n s (links ++ link_line found (suc (length links)) ∷ []) in
        (found ++ number (suc (length links)) ++ t, all))
]

-- What the loop of gemini keeps: the flags, the attached file, the links and what is written.
pub record Gem : Type 0 where
  pub pre : Bool
  pub xpm : Bool
  pub b64 : Bool
  pub b64str : Bytes
  pub b64fname : Bytes
  pub links : List Bytes
  pub out : Bytes

abbrev pub fence : Bytes
fence = codes "```"

unfoldable pub writes : Bytes → Gem → Gem
writes l g = record g { out = g.out ++ line_of l }

-- The name of an attached file, without slashes.
unfoldable pub gem_name : Bytes → Bytes
gem_name l = replace (replace (trim (trim_prefix l (codes "@base64:")) b' ') b'/' b'_') b'\\' b'_'

unfoldable pub with_links : Gem → Bytes × List Bytes → Gem
with_links g (t, all) = writes t (record g { links = all })

-- The end of the body: the links of a line of plain text are numbered, and the line is written.
unfoldable pub plain_end : Bytes → Gem → Gem
plain_end l g =
    if not g.pre && not g.xpm && not g.b64
    then with_links g (cite 0 l g.links)
    else if not g.b64
    then writes l g
    else g

-- A line outside of blocks.
unfoldable pub open_line : Bytes → Gem → Gem
open_line l g =
    if str_eq l (codes "====")
    then plain_end fence (record g { pre = true })
    else if has_prefix l (codes "/* XPM */")
    then plain_end l (record (writes fence g) { xpm = true })
    else if has_prefix l (codes "@base64:")
    then plain_end l (record g { b64 = true; b64fname = gem_name l })
    else plain_end l g

-- The body of the loop.
unfoldable pub gem_line : Bytes → Gem → Gem
gem_line v g =
    let l = remove_all v b'\r' in
    if g.pre
    then (if str_eq l (codes "====")
        then plain_end fence (record g { pre = false })
        else plain_end l g)
    else if g.xpm
    then (if has_suffix l (codes "};")
        then writes fence (writes l (record g { xpm = false }))
        else plain_end l g)
    else if g.b64
    then plain_end l (record g { b64str = g.b64str ++ l })
    else open_line l g

unfoldable pub gem_lines : List Bytes → Gem → Gem
gem_lines [] g = g
gem_lines (v ∷ lines) g = gem_lines lines (gem_line v g)

unfoldable pub lines_of : List Bytes → Bytes
lines_of [] = []
lines_of (l ∷ lines) = line_of l ++ lines_of lines

unfoldable pub to_line : Msg → Bytes
to_line m =
    if not (str_eq m.to (codes "All")) && not (str_eq m.to m.from)
    then codes "To: " ++ m.to ++ codes "\n\n"
    else []

module _ (date_text : ℤ → Bytes) (create : Bytes → Bool) where
  unfoldable pub header : Msg → Bytes
  header m =
      line_of (codes "# " ++ m.subj)
      ++ to_line m
      ++ codes "by "
      ++ m.from
      ++ codes " on "
      ++ date_text m.date
      ++ codes "\n\n"

  unfoldable pub begun : Msg → Gem
  begun m = record {
    pre = false;
    xpm = false;
    b64 = false;
    b64str = [];
    b64fname = [];
    links = [];
    out = header m;
  }

  -- The attached file is made, if it decodes and its path can be created, and the page links it.
  unfoldable pub with_file : Bytes → Gem → Option Bytes → Bytes × Option (Bytes × Bytes)
  with_file dir g none = (g.out ++ lines_of g.links, none)
  with_file dir g (some d) =
      let path = dir ++ b'/' ∷ g.b64fname in
      if create path
      then (
        g.out ++ lines_of g.links ++ line_of (codes "=> " ++ g.b64fname ++ codes " " ++ g.b64fname),
        some (path, d),
      )
      else (g.out ++ lines_of g.links, none)

  unfoldable pub gem_end : Bytes → Gem → Bytes × Option (Bytes × Bytes)
  gem_end dir g = with_file dir g (if g.b64 then Base64.decode Base64.std g.b64str else none)

  -- gemini: the page, and the path and the bytes of the file that it makes.
  unfoldable pub gemini : Msg → Bytes → Bytes × Option (Bytes × Bytes)
  gemini m dir = gem_end dir (gem_lines (split m.text b'\n') (begun m))
