-- ===== src/Node/Texts/Tests.antt =====
-- Runs of the functions on texts, and the theorem on files at a concrete message.
use ii_go.Base.{if◌then◌else◌, codes, str_eq, ok, err, ◌≡◌, refl, true, some, [], ◌∷◌, arith}
use ii_go.Strings.{split, has_prefix, trim_left, trim_right, trim, remove_all}
use ii_go.Strings.Runes.{rune_len, runes_behind}
use ii_go.Base64
use ii_go.Msg.Encode.{Msg}
use ii_go.Msg.Tests.{sample}
use ii_go.Db.State.{index_out_of_range}
use ii_go.Node.Html.{replace_by, str_esc, msg_clean}
use ii_go.Node.Texts.{
  is_quote, deeper, initial_of, both, initials, quote_line, quote_lines, msg_quote, file_name,
  image_link,
}
use ii_go.Node.Texts.Attached.{is_image, inline, attachment, file_of}
use ii_go.Node.Texts.Attached.RoundTrip.{file_of-encode}

abbrev file_msg : Msg
file_msg = record sample { text = codes "@base64: a.txt\nRGF0YQ==" }

file_lines :
    split (msg_clean file_msg.text) b'\n'
    ≡ codes "@base64: a.txt" ∷ Base64.encode Base64.std (codes "Data") ∷ []
unfolding split msg_clean remove_all trim_left trim_right Base64.encode
file_lines = refl

is_file : has_prefix (codes "@base64: a.txt") (codes "@base64:") ≡ true
unfolding has_prefix
is_file = refl

file_of-encode_example : file_of (some file_msg) ≡ (
    if is_image (codes "Data")
    then inline (codes "Data")
    else attachment (file_name (codes "@base64: a.txt")) (codes "Data"))
file_of-encode_example =
    file_of-encode file_msg (codes "@base64: a.txt") (codes "Data") file_lines is_file
      (ground arith) (omega arith)

-- A quotation mark in the name of a file ends the attribute that it stands in.
unquoted_name :
    image_link (codes "id") (codes "\" onerror=\"x.png")
    ≡ codes "<img class=\"img\" alt=\"\" onerror=\"x.png\" src=\"/id/base64\">\n"
unfolding image_link str_esc replace_by
unquoted_name = refl

-- The first letters of a name that begins with a blank.
no_initial : msg_quote (codes "text") (codes " name") ≡ err index_out_of_range
unfolding msg_quote initials initial_of runes_behind split both
no_initial = refl

quoted : msg_quote (codes "one\n> two") (codes "Peter K") ≡ ok (codes "PK> one\n>> two\n")
unfolding msg_quote initials initial_of runes_behind rune_len split both quote_lines quote_line
    is_quote deeper msg_clean remove_all trim_left trim_right trim str_eq
quoted = refl
