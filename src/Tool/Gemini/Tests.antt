-- ===== src/Tool/Gemini/Tests.antt =====
-- The theorem on the pages for Gemini at a concrete input.
use ii_go.Base.{Bytes, codes, str_eq, ℤ, ◌≡◌, refl, Bool, true, some, ◌∷◌, ◌++◌}
use ii_go.Strings.{split, has_prefix, trim_prefix, trim_left, trim_right, trim, replace, remove_all}
use ii_go.Base64
use ii_go.Msg.Encode.{Msg}
use ii_go.Msg.Tests.{sample}
use ii_go.Tool.Commands.{line_of}
use ii_go.Tool.Gemini.{
  is_break, trunc_lines, text_trunc, number, link_line, cite, writes, gem_name, with_links,
  plain_end, open_line, gem_line, gem_lines, lines_of, to_line, header, begun, with_file, gem_end,
  gemini,
}
use ii_go.Tool.Gemini.Files.{IsPlain, gemini-IsLinked}
use ii_go.Node.Html.{msg_clean}
use ii_go.Node.Links.{run, behind, is_url_char, url}
use ii_go.Decimal.{print_int}

abbrev no_date : ℤ → Bytes
no_date d = codes "today"

abbrev all_made : Bytes → Bool
all_made path = true

-- A message whose attached file is named as one of another directory.
abbrev leaving : Msg
leaving = record sample { subj = codes "File"; text = codes "see http://x/y\n@base64: ../a\naGk=" }

abbrev leaving_page : Bytes
leaving_page =
    codes
      "# File\nby Peter on today\n\nsee http://x/y [1]\n=> http://x/y http://x/y [1]\n=> .._a .._a\n"

page_made :
    gemini no_date all_made leaving (codes "gmi")
    ≡ (leaving_page, some (codes "gmi/.._a", codes "hi"))
unfolding gemini gem_lines gem_line open_line plain_end gem_name with_links writes cite number
    link_line begun header to_line lines_of gem_end with_file split has_prefix replace remove_all
    trim trim_prefix trim_left trim_right url behind run is_url_char print_int str_eq Base64.decode
page_made = refl

short_text : text_trunc (codes "\none\n\ntwo") 2 ≡ codes "one\n\n..."
unfolding text_trunc trunc_lines is_break msg_clean trim_left trim_right remove_all split has_prefix
    str_eq
short_text = refl

gemini-IsLinked_example :
    (name rest : Bytes) × IsPlain name
    × (codes "gmi/.._a" ≡ codes "gmi" ++ b'/' ∷ name)
    × (all_made (codes "gmi/.._a") ≡ true)
    × (leaving_page ≡ rest ++ line_of (codes "=> " ++ name ++ codes " " ++ name))
gemini-IsLinked_example =
    gemini-IsLinked no_date all_made (codes "gmi") leaving leaving_page (codes "gmi/.._a")
      (codes "hi") page_made
