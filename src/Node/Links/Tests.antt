-- ===== src/Node/Links/Tests.antt =====
-- Runs of msg_esc, and its theorem at a concrete text.
use ii_go.Base.{codes, ok, err, ◌≡◌, refl, [], ◌∷◌, ◌++◌, arith}
use ii_go.Strings.{has_prefix, trim_prefix}
use ii_go.Decimal.{print_int, scan_int64}
use ii_go.Db.State.{index_out_of_range}
use ii_go.Node.Html.{replace_by, str_esc}
use ii_go.Node.Links.{
  run, behind, is_ii_char, ii_url, is_url_char, url, mark, mark_of, ii_link, url_link, collect,
  link_at, number_of, before_rest, put_links, msg_esc,
}
use ii_go.Node.Links.Forged.{msg_esc-forged}

escaped :
    msg_esc (codes "see http://a.b/c & ii://std.x")
    ≡ ok (
        codes
          "see <a href=\"http://a.b/c\" class=\"url\">http://a.b/c</a> &amp; <a href=\"/std.x#std.x\" class=\"url\">ii://std.x</a>")
unfolding msg_esc collect ii_url url behind run is_ii_char is_url_char has_prefix mark_of print_int
    put_links mark link_at number_of before_rest scan_int64 str_esc replace_by ii_link url_link
    trim_prefix
escaped = refl

msg_esc-forged_example :
    msg_esc (codes "try " ++ (codes "{{{href=" ++ ((b'7' ∷ []) ++ (codes "}}}" ++ codes "!"))))
    ≡ err index_out_of_range
msg_esc-forged_example =
    msg_esc-forged (codes "try ") b'7' [] (codes "!") (omega arith) (ground arith) (omega arith)
