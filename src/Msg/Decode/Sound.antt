-- ===== src/Msg/Decode/Sound.antt =====
-- What DecodeBundle guarantees of a message that it returns.
use mathlib.Core.Path.{subst}
use ii_go.Base.{
  Bool-cases, All, Bytes, codes, str_eq, str_eq_refl, Lacks, ok, ◌≡◌, refl, ◌⊎◌, inl, inr, Bool,
  true, false, Option, none, some, List, [], ◌∷◌, arith,
}
use ii_go.Msg.Tags.{Tags, make_tags, get}
use ii_go.Msg.Tags.Laws.{IsListed, make_tags-IsListed}
use ii_go.Msg.Valid.{is_msg_id, is_echo}
use ii_go.Msg.Encode.{Msg, named}
use ii_go.Msg.Decode.{
  MsgError, good_repto, check, tags_of, fields, from_data, from_base64, from_parts, decode_bundle,
}
use ii_go.Strings.{split, contains, remove_all}
use ii_go.Strings.Split.{split-All-Lacks}
use ii_go.Msg.Valid.Laws.{IsDigest, make_msg_id-is_msg_id}

-- A valid echo, a valid parent id if there is one, listed tags, and header fields of one line.
pub record IsDecoded (m : Msg) : Type 0 where
  pub good_echo : is_echo m.echo ≡ true
  pub good_parent : good_repto (get m.tags (codes "repto")) ≡ true
  pub tags_listed : IsListed m.tags
  pub from_line : Lacks b'\n' m.from
  pub addr_line : Lacks b'\n' m.addr
  pub to_line : Lacks b'\n' m.to
  pub subj_line : Lacks b'\n' m.subj

check-ok : (b : Bool) (e : MsgError) {u : Unit {0}} → check b e ≡ ok u → b ≡ true
unfolding check
check-ok true e h = refl
check-ok false e h = cc

tags_of-ok : (s : Bytes) {t : Tags} → tags_of s ≡ ok t → make_tags s ≡ ok t
unfolding tags_of
tags_of-ok s h = ground arith

fields-IsDecoded :
    (id : Bytes) (text : List Bytes) {m : Msg}
    → All (Lacks b'\n') text
    → fields id text ≡ ok m
    → IsDecoded m × (m.msg_id ≡ id)
unfolding fields check
fields-IsDecoded id (t0 ∷ t1 ∷ t2 ∷ t3 ∷ t4 ∷ t5 ∷ t6 ∷ t7 ∷ t8 ∷ rest) {m} l h =
    let tags : tags_of t0 ≡ ok m.tags = ground arith in
    let parent : good_repto (get m.tags (codes "repto")) ≡ true = ground arith in
    let good : is_echo t1 ≡ true = ground arith in
    let echo : m.echo ≡ t1 = ground arith in
    let from : t3 ≡ m.from = ground arith in
    let addr : t4 ≡ m.addr = ground arith in
    let to : t5 ≡ m.to = ground arith in
    let subj : t6 ≡ m.subj = ground arith in
    (
      record {
        good_echo = rw echo good;
        good_parent = parent;
        tags_listed = make_tags-IsListed t0 (tags_of-ok t0 tags);
        from_line = subst (Lacks b'\n') from l.1.1.1.0;
        addr_line = subst (Lacks b'\n') addr l.1.1.1.1.0;
        to_line = subst (Lacks b'\n') to l.1.1.1.1.1.0;
        subj_line = subst (Lacks b'\n') subj l.1.1.1.1.1.1.0;
      },
      ground arith,
    )
fields-IsDecoded id _ l h = cc

module _ (sha256 : Bytes → Bytes) (d : IsDigest sha256) where
  from_data-IsDecoded :
      (id : Bytes) (data' : Option Bytes) {m : Msg}
      → (str_eq id [] ≡ true) ⊎ (is_msg_id id ≡ true)
      → from_data sha256 id data' ≡ ok m
      → IsDecoded m × (is_msg_id m.msg_id ≡ true)
  unfolding from_data
  from_data-IsDecoded id none c h = cc
  from_data-IsDecoded id (some bytes) {m} c h =
      let str = remove_all bytes b'\r' in
      let (good, named) = fields-IsDecoded _ (split str b'\n') (split-All-Lacks str b'\n') h in
      (good, ground (arith, make_msg_id-is_msg_id sha256 str d))

  from_base64-IsDecoded :
      (id s : Bytes) {m : Msg}
      → (str_eq id [] ≡ true) ⊎ (is_msg_id id ≡ true)
      → from_base64 sha256 id s ≡ ok m
      → IsDecoded m × (is_msg_id m.msg_id ≡ true)
  unfolding from_base64
  from_base64-IsDecoded id s c h = from_data-IsDecoded id _ c h

  from_parts-IsDecoded :
      (ps : List Bytes) {m : Msg}
      → from_parts sha256 ps ≡ ok m
      → IsDecoded m × (is_msg_id m.msg_id ≡ true)
  unfolding from_parts
  from_parts-IsDecoded (id ∷ s ∷ []) h = elim (Bool-cases (is_msg_id id)) [
    | inl e ↦ from_base64-IsDecoded id s (inr e) (rw e at h)
    | inr n ↦ absurd (ground arith)
  ]
  from_parts-IsDecoded _ h = cc

  -- A message that DecodeBundle returns, from any text, has a valid id and echo, a valid parent id if
  -- it has one, all its tags in the list, and sender, address, recipient and subject of one line.
  pub decode_bundle-IsDecoded :
      (s : Bytes) {m : Msg}
      → decode_bundle sha256 s ≡ ok m
      → IsDecoded m × (is_msg_id m.msg_id ≡ true)
  unfolding decode_bundle
  decode_bundle-IsDecoded s h = elim (Bool-cases (contains s b':')) [
    | inl e ↦ from_parts-IsDecoded (split s b':') (rw e at h)
    | inr n ↦ from_base64-IsDecoded [] s (inl (str_eq_refl [])) (rw n at h)
  ]
