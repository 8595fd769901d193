-- ===== src/Node/Links.antt =====
-- ii-node/web.go: msg_esc and the regular expressions of links, each as the length of its match at the
-- beginning of a text, 0 for none.
pub mod Forged
mod Tests
use ii_go.Base.{
  leb, ◌==◌, if◌then◌else◌, length, take, drop, Bytes, codes, ℤ, pos, negsuc, Result, ok, err, ℕ,
  zero, suc, ◌+◌, ◌/◌, Bool, ◌&&◌, ◌||◌, not, Option, none, some, List, [], ◌∷◌, ◌++◌,
}
use ii_go.Strings.{has_prefix, trim_prefix}
use ii_go.Decimal.{print_int, is_digit, scan_int64}
use ii_go.Db.State.{Panic, index_out_of_range}
use ii_go.Node.Html.{str_esc}

-- The longest beginning of such bytes.
unfoldable pub run : (ℕ → Bool) → Bytes → ℕ
run p [] = 0
run p (c ∷ s) = let rest = run p s in if p c then suc rest else 0

-- A prefix with at least one such byte behind it.
unfoldable pub behind : Bytes → (ℕ → Bool) → Bytes → ℕ
behind prefix p s =
    let n = run p (drop (length prefix) s) in
    if has_prefix s prefix && not (n == 0) then length prefix + n else 0

-- urlIIRegex: ii://[a-zA-Z0-9_\-.]+
unfoldable pub is_ii_char : ℕ → Bool
is_ii_char c =
    (leb b'a' c && leb c b'z')
    || (leb b'A' c && leb c b'Z')
    || is_digit c
    || c == b'_'
    || c == b'-'
    || c == b'.'

unfoldable pub ii_url : Bytes → ℕ
ii_url s = behind (codes "ii://") is_ii_char s

-- urlRegex: (http|ftp|https|gemini)://[^ <>"]+
unfoldable pub is_url_char : ℕ → Bool
is_url_char c = not (c == b' ' || c == b'<' || c == b'>' || c == 34)

unfoldable pub url : Bytes → ℕ
url s =
    if has_prefix s (codes "http://")
    then behind (codes "http://") is_url_char s
    else if has_prefix s (codes "ftp://")
    then behind (codes "ftp://") is_url_char s
    else if has_prefix s (codes "https://")
    then behind (codes "https://") is_url_char s
    else behind (codes "gemini://") is_url_char s

-- url2Regex: {{{href=[0-9]+}}}
unfoldable pub mark : Bytes → ℕ
mark s =
    let n = behind (codes "{{{href=") is_digit s in
    if not (n == 0) && has_prefix (drop n s) (codes "}}}") then n + 3 else 0

-- What stands for the link of a number until the text is escaped.
unfoldable pub mark_of : ℕ → Bytes
mark_of n = codes "{{{href=" ++ print_int (pos n) ++ codes "}}}"

unfoldable pub ii_link : Bytes → Bytes
ii_link s =
    let target = trim_prefix s (codes "ii://") in
    codes "<a href=\"/"
    ++ target
    ++ b'#' ∷ target
    ++ codes "\" class=\"url\">"
    ++ str_esc s
    ++ codes "</a>"

unfoldable pub url_link : Bytes → Bytes
url_link s = codes "<a href=\"" ++ s ++ codes "\" class=\"url\">" ++ str_esc s ++ codes "</a>"

-- ReplaceAllFunc with a function that notes a link: `skip` counts the bytes of a match that are still to
-- be dropped.
unfoldable pub collect : (Bytes → ℕ) → (Bytes → Bytes) → ℕ → Bytes → List Bytes → Bytes × List Bytes
collect match link skip [] links = ([], links)
collect match link (suc skip) (c ∷ s) links = collect match link skip s links
collect match link zero (c ∷ s) links = elim (match (c ∷ s)) [
  | zero ↦ (let (t, all) = collect match link zero s links in (c ∷ t, all))
  | suc n ↦
      (let (t, all) = collect match link n s (links ++ link (take (suc n) (c ∷ s)) ∷ []) in
        (mark_of (length links) ++ t, all))
]

unfoldable pub link_at : List Bytes → ℕ → Result Panic Bytes
link_at [] n = err index_out_of_range
link_at (l ∷ links) zero = ok l
link_at (l ∷ links) (suc n) = link_at links n

-- `n` of Sscanf, 0 if the number is no int.
unfoldable pub number_of : Option ℤ → ℕ
number_of none = 0
number_of (some (pos n)) = n
number_of (some (negsuc n)) = 0

unfoldable pub before_rest : Result Panic Bytes → Result Panic Bytes → Result Panic Bytes
before_rest (err p) rest = err p
before_rest (ok t) (err p) = err p
before_rest (ok t) (ok s) = ok (t ++ s)

-- The links take the places of their marks, and of all else that looks like a mark.
unfoldable pub put_links : List Bytes → ℕ → Bytes → Result Panic Bytes
put_links links skip [] = ok []
put_links links (suc skip) (c ∷ s) = put_links links skip s
put_links links zero (c ∷ s) = elim (mark (c ∷ s)) [
  | zero ↦ before_rest (ok (c ∷ [])) (put_links links zero s)
  | suc n ↦
      before_rest (link_at links (number_of (scan_int64 (drop 8 (c ∷ s))))) (put_links links n s)
]

-- msg_esc
unfoldable pub msg_esc : Bytes → Result Panic Bytes
msg_esc l =
    let (l1, links1) = collect ii_url ii_link 0 l [] in
    let (l2, links2) = collect url url_link 0 l1 links1 in put_links links2 0 (str_esc l2)
