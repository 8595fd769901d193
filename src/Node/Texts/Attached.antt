-- ===== src/Node/Texts/Attached.antt =====
-- ii-node/web.go: the files in messages (www_base64) and the avatars of users (www_avatar).
pub mod RoundTrip
use ii_go.Base.{
  ltb, leb, ◌==◌, if◌then◌else◌, length, Bytes, codes, str_eq, ℤ, Result, ok, err, ℕ, ◌%◌, Bool,
  true, false, ◌&&◌, ◌||◌, not, Option, none, some, List, [], ◌∷◌, ◌++◌,
}
use ii_go.Strings.{split, contains, has_prefix, trim, remove_all}
use ii_go.Base64
use ii_go.Msg.Tags.{Tags, get_or_empty, add_or_keep, del}
use ii_go.Msg.Encode.{Msg}
use ii_go.Db.State.{Panic, Exec, ◌>>=◌, ◌>>◌, pure}
use ii_go.Db.Access.{get_msg}
use ii_go.Users.{User}
use ii_go.Users.Policy.{Udb}
use ii_go.Users.Account.{edit_account}
use ii_go.Node.Html.{msg_clean}
use ii_go.Node.Xpm.{Color, parse_xpm}
use ii_go.Node.Texts.{file_name}

-- base64Regex: ^([A-Za-z0-9+/]{4})*([A-Za-z0-9+/]{3}=|[A-Za-z0-9+/]{2}==)?$
unfoldable pub is_base64_char : ℕ → Bool
is_base64_char c =
    (leb b'A' c && leb c b'Z')
    || (leb b'a' c && leb c b'z')
    || (leb b'0' c && leb c b'9')
    || c == b'+'
    || c == b'/'

unfoldable pub is_base64 : Bytes → Bool
is_base64 [] = true
is_base64 (a ∷ b ∷ c ∷ d ∷ s) =
    let more = is_base64 s in
    is_base64_char a
    && is_base64_char b
    && ((is_base64_char c && is_base64_char d && more)
        || (str_eq s [] && d == b'=' && (is_base64_char c || c == b'=')))
is_base64 _ = false

-- What the loop of www_base64 keeps.
pub record FileReader : Type 0 where
  pub start : Bool
  pub pre : Bool
  pub b64 : Bytes
  pub fname : Bytes

-- The body of the loop; `none` is its break.
unfoldable pub read_file_line : FileReader → Bytes → Option FileReader
read_file_line r v =
    if not r.start && str_eq (trim v b' ') (codes "====")
    then some (record r { pre = not r.pre })
    else if r.pre
    then some r
    else if not r.start && not (has_prefix v (codes "@base64:"))
    then some r
    else if r.start
    then (let w = remove_all v b' ' in
        if is_base64 w then some (record r { b64 = r.b64 ++ w }) else none)
    else some (record r { fname = file_name v; start = true })

unfoldable pub read_file : List Bytes → FileReader → FileReader
read_file [] r = r
read_file (v ∷ lines) r = elim (read_file_line r v) [ none ↦ r | some q ↦ read_file lines q ]

abbrev pub no_file : FileReader
no_file = record { start = false; pre = false; b64 = []; fname = [] }

-- base64.RawStdEncoding, which has no padding.
unfoldable pub padded : Bytes → Bytes
padded s =
    if length s % 4 == 2 then s ++ codes "==" else if length s % 4 == 3 then s ++ codes "=" else s

unfoldable pub decode_raw : Bytes → Option Bytes
decode_raw s = if contains s b'=' then none else Base64.decode Base64.std (padded s)

unfoldable pub decode_file : Bytes → Option Bytes
decode_file b64 = elim (Base64.decode Base64.std b64) [
  | some b ↦ some b
  | none ↦ elim (decode_raw b64) [ some b ↦ some b | none ↦ Base64.decode Base64.url b64 ]
]

-- check_image, whose table holds the first bytes of the three kinds.
unfoldable pub is_image : Bytes → Bool
is_image b =
    has_prefix b (0xff ∷ 0xd8 ∷ 0xff ∷ [])
    || has_prefix b (0x89 ∷ codes "PNG\r\n\u{1a}\n")
    || has_prefix b (codes "GIF87a")
    || has_prefix b (codes "GIF89a")

-- What is sent: nothing, or the bytes, shown in the page or saved under a name.
pub data FilePage : Type 0 where
  no_message no_data wrong_base64 : FilePage
  inline : Bytes → FilePage
  attachment : Bytes → Bytes → FilePage

unfoldable pub file_page : FileReader → FilePage
file_page r = if str_eq r.b64 [] then no_data else elim (decode_file r.b64) [
  | none ↦ wrong_base64
  | some b ↦ if is_image b then inline b else attachment r.fname b
]

unfoldable pub file_of : Option Msg → FilePage
file_of none = no_message
file_of (some m) = file_page (read_file (split (msg_clean m.text) b'\n') no_file)

-- www_base64
unfoldable pub www_base64 : (Bytes → Bytes) → Bytes → Exec FilePage
www_base64 sha256 id = do m ← get_msg sha256 id; pure (file_of m)

-- The answers of www_avatar.
pub data AvatarPage : Type 0 where
  not_yours too_big not_xpm not_saved saved empty : AvatarPage
  picture : Bytes → AvatarPage

module _ {Image : Type 0} (new_rgba : ℤ → ℤ → Option Image) (set : ℕ → ℕ → Color → Image → Image)
    (scan_color : Bytes → Option Color) (png : Image → Option Bytes) where
  -- parse_ava
  unfoldable pub parse_ava : Bytes → Result Panic (Option Image)
  parse_ava txt = elim (parse_xpm new_rgba set scan_color (split (msg_clean txt) b'\n')) [
    | err p ↦ err p
    | ok (img, n) ↦ ok img
  ]

  unfoldable pub png_page : Option Image → AvatarPage
  png_page none = empty
  png_page (some img) = elim (png img) [ none ↦ empty | some b ↦ picture b ]

  unfoldable pub drawn : Option Bytes → Result Panic AvatarPage
  drawn none = ok empty
  drawn (some txt) = elim (parse_ava txt) [ err p ↦ err p | ok img ↦ ok (png_page img) ]

  -- www_avatar on GET
  unfoldable pub show_avatar : Option User → Result Panic AvatarPage
  show_avatar none = ok empty
  show_avatar (some u) =
      let ava = get_or_empty u.tags (codes "avatar") in
      if str_eq ava [] then ok empty else drawn (Base64.decode Base64.url ava)

  module _ {Regex : Type 0} where
    unfoldable pub save_avatar : Udb Regex → User → Tags → Result Panic AvatarPage × Udb Regex
    save_avatar udb u tags =
        let (e, udb') = edit_account udb (record u { tags = tags }) in
        (ok (elim e [ none ↦ saved | some x ↦ not_saved ]), udb')

    unfoldable pub parsed_avatar :
        Udb Regex → User → Bytes → Result Panic (Option Image) → Result Panic AvatarPage × Udb Regex
    parsed_avatar udb u ava (err p) = (err p, udb)
    parsed_avatar udb u ava (ok none) = (ok not_xpm, udb)
    parsed_avatar udb u ava (ok (some img)) =
        save_avatar udb u (add_or_keep u.tags (codes "avatar/" ++ Base64.encode Base64.url ava))

    -- www_avatar on POST
    unfoldable pub post_avatar :
        User → Bytes → Bytes → Udb Regex → Result Panic AvatarPage × Udb Regex
    post_avatar u user ava udb =
        if str_eq u.name [] || not (str_eq u.name user)
        then (ok not_yours, udb)
        else if ltb 2048 (length ava)
        then (ok too_big, udb)
        else if str_eq ava []
        then save_avatar udb u ((del u.tags (codes "avatar")).0)
        else parsed_avatar udb u ava (parse_ava ava)
