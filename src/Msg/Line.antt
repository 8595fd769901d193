-- ===== src/Msg/Line.antt =====
-- ii/msg.go, DecodeMsgline: a message as a point sends it.
pub mod Sound
use ii_go.Base.{
  leb, if◌then◌else◌, length, All, Bytes, codes, str_eq, ℤ, Result, ok, err, ◌>>=◌, ◌>>◌, Bool,
  none, some, List, [], ◌∷◌, ◌++◌,
}
use ii_go.Strings.{split, has_prefix, trim, trim_space}
use ii_go.Base64
use ii_go.Msg.Tags.{Tags, new_tags, add_or_keep}
use ii_go.Msg.Valid.{is_echo, is_empty_subject}
use ii_go.Msg.Encode.{Msg}
use ii_go.Msg.Decode.{
  MsgError, too_long, bad_base64, wrong_format, no_body_delimiter, wrong_echo, wrong_subject, body,
  check,
}

-- Try the standard alphabet, then the URL one.
unfoldable pub either_base64 : Bytes → Result MsgError Bytes
either_base64 msg = elim (Base64.decode Base64.std msg) [
  | some s ↦ ok s
  | none ↦ elim (Base64.decode Base64.url msg) [ some s ↦ ok s | none ↦ err bad_base64 ]
]

abbrev second : List Bytes → Bytes
second (a ∷ b ∷ l) = b
second _ = []

abbrev pub repto_prefix : Bytes
repto_prefix = codes "@repto:"

-- `strings.Trim(strings.Split(repto, ":")[1], " ")`; the prefix holds a colon, so there are two parts.
unfoldable pub repto_of : Bytes → Bytes
unfolding split trim
repto_of line = trim (second (split line b':')) b' '

abbrev pub or_all : Bytes → Bytes
or_all to = if str_eq to [] then codes "All" else to

unfoldable pub line_tags : Bytes → Tags
line_tags t4 =
    if has_prefix t4 repto_prefix
    then add_or_keep (new_tags (codes "ii/ok")) (codes "repto/" ++ repto_of t4)
    else new_tags (codes "ii/ok")

unfoldable pub line_fields : ℤ → List Bytes → Result MsgError Msg
line_fields now (t0 ∷ t1 ∷ t2 ∷ t3 ∷ t4 ∷ rest) = do
  check (str_eq t3 []) no_body_delimiter
  check (is_echo (trim_space t0)) wrong_echo
  check (is_empty_subject (trim_space t2)) wrong_subject
  ok (record {
    msg_id = [];
    tags = line_tags t4;
    echo = trim_space t0;
    date = now;
    from = [];
    addr = [];
    to = or_all (trim_space t1);
    subj = trim_space t2;
    text = body (if has_prefix t4 repto_prefix then rest else t4 ∷ rest);
  })
line_fields now _ = err wrong_format

-- DecodeMsgline; `now` is the clock of the host.
unfoldable pub decode_msgline : ℤ → Bytes → Bool → Result MsgError Msg
decode_msgline now msg enc = do
  check (leb (length msg) 65536) too_long
  text ← if enc then either_base64 msg else ok msg
  line_fields now (split text b'\n')
