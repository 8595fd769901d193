-- ===== src/Msg/Decode.antt =====
-- ii/msg.go, DecodeBundle: a message from a line msgid:base64 or from the bare base64.
pub mod Sound
use ii_go.Base.{
  if◌then◌else◌, Bytes, codes, str_eq, ℤ, Result, ok, err, ◌>>=◌, ◌>>◌, Bool, true, false, Option,
  none, some, List, [], ◌∷◌, ◌++◌,
}
use ii_go.Strings.{split, contains, trim_suffix, replace, remove_all}
use ii_go.Decimal.{scan_int64}
use ii_go.Base64
use ii_go.Msg.Tags.{Tags, make_tags, get}
use ii_go.Msg.Valid.{is_msg_id, is_echo, is_subject, make_msg_id}
use ii_go.Msg.Encode.{Msg}

pub data MsgError : Type 0 where
  too_long bad_base64 wrong_format no_body_delimiter wrong_echo wrong_subject : MsgError
  wrong_bundle wrong_msg_id wrong_repto bad_tags bad_date : MsgError

-- The loop that puts the body together: every line with a newline behind it.
unfoldable pub unlines : List Bytes → Bytes
unlines [] = []
unlines (l ∷ ls) = l ++ b'\n' ∷ unlines ls

unfoldable pub body : List Bytes → Bytes
unfolding unlines trim_suffix
body ls = trim_suffix (unlines ls) b'\n'

-- `repto, ok := m.Tags.Get("repto"); ok && !IsMsgId(repto)` is an error.
unfoldable pub good_repto : Option Bytes → Bool
good_repto none = true
good_repto (some r) = is_msg_id r

unfoldable pub check : Bool → MsgError → Result MsgError (Unit {0})
check true e = ok tt
check false e = err e

unfoldable pub tags_of : Bytes → Result MsgError Tags
tags_of s = elim (make_tags s) [ ok t ↦ ok t | err e ↦ err bad_tags ]

unfoldable pub date_of : Bytes → Result MsgError ℤ
date_of s = elim (scan_int64 s) [ some z ↦ ok z | none ↦ err bad_date ]

-- The header lines and the body; a text of eight lines or fewer is refused.
unfoldable pub fields : Bytes → List Bytes → Result MsgError Msg
fields id (t0 ∷ t1 ∷ t2 ∷ t3 ∷ t4 ∷ t5 ∷ t6 ∷ t7 ∷ t8 ∷ rest) = do
  tags ← tags_of t0
  check (good_repto (get tags (codes "repto"))) wrong_repto
  check (is_echo t1) wrong_echo
  date ← date_of t2
  check (is_subject t6) wrong_subject
  ok (record {
    msg_id = id;
    tags = tags;
    echo = t1;
    date = date;
    from = t3;
    addr = t4;
    to = t5;
    subj = t6;
    text = body (t8 ∷ rest);
  })
fields id _ = err wrong_format

module _ (sha256 : Bytes → Bytes) where
  unfoldable pub from_data : Bytes → Option Bytes → Result MsgError Msg
  from_data id none = err bad_base64
  from_data id (some bytes) =
      let str = remove_all bytes b'\r' in
      fields (if str_eq id [] then make_msg_id sha256 str else id) (split str b'\n')

  -- The URL alphabet is turned into the standard one first.
  unfoldable pub from_base64 : Bytes → Bytes → Result MsgError Msg
  from_base64 id msg =
      from_data id (Base64.decode Base64.std (replace (replace msg b'-' b'+') b'_' b'/'))

  unfoldable pub from_parts : List Bytes → Result MsgError Msg
  from_parts (id ∷ msg ∷ []) = if is_msg_id id then from_base64 id msg else err wrong_msg_id
  from_parts _ = err wrong_bundle

  -- DecodeBundle
  unfoldable pub decode_bundle : Bytes → Result MsgError Msg
  decode_bundle msg = if contains msg b':' then from_parts (split msg b':') else from_base64 [] msg
