-- ===== src/Msg/RoundTrip.antt =====
-- DecodeBundle undoes Encode.
use ii_go.Base.{
  Bool-cases, length, All, All-imp, Bytes, codes, str_eq, str_eq_iff, Lacks, IsByte, ℤ, IsInt64, ok,
  ℕ, ◌≤◌, ◌<◌, ◌≡◌, refl, sym, ap, ◌∙◌, ◌≢◌, inl, inr, true, false, some, List, [], ◌∷◌, ◌++◌,
  append_assoc, arith,
}
use ii_go.Strings.{split, join, contains, trim_suffix}
use ii_go.Strings.Split.{split-ne-nil, split-append, split-Lacks, join-split, contains-append_sep}
use ii_go.Strings.Trim.{trim_suffix-append}
use ii_go.Decimal.{print_int, scan_int64}
use ii_go.Decimal.RoundTrip.{scan_int64-print_int, print_int-Lacks}
use ii_go.Base64
use ii_go.Msg.Tags.{Tags, make_tags, get, to_string}
use ii_go.Msg.Tags.RoundTrip.{of_pairs, IsPrintable, make_tags-to_string}
use ii_go.Msg.Valid.{is_msg_id, is_echo, is_subject}
use ii_go.Msg.Encode.{Msg, raw_text, is_zero, dated, named, encode}
use ii_go.Msg.Decode.{
  unlines, body, good_repto, check, tags_of, date_of, fields, from_data, from_base64, from_parts,
  decode_bundle,
}
use ii_go.Base64.RoundTrip.{IsText, encode-IsText, decode-encode}
use ii_go.Strings.Replace.{replace-Lacks, remove_all-Lacks}

-- A message that a bundle can carry: valid id, tags, echo and date, header fields of one line, and
-- bytes without a carriage return. The body may have any lines.
pub record IsStorable (m : Msg) : Type 0 where
  pub good_id : is_msg_id m.msg_id ≡ true
  pub id_colon : Lacks b':' m.msg_id
  pub props : List (Bytes × Bytes)
  pub tags_props : m.tags ≡ of_pairs props
  pub printable : IsPrintable props
  pub tags_line : Lacks b'\n' (to_string m.tags)
  pub repto : good_repto (get m.tags (codes "repto")) ≡ true
  pub good_echo : is_echo m.echo ≡ true
  pub echo_line : Lacks b'\n' m.echo
  pub date_range : IsInt64 m.date
  pub date_set : is_zero m.date ≡ false
  pub from_line : Lacks b'\n' m.from
  pub addr_line : Lacks b'\n' m.addr
  pub to_line : Lacks b'\n' m.to
  pub subj_line : Lacks b'\n' m.subj
  pub bytes : All IsByte (raw_text m)
  pub no_cr : Lacks b'\r' (raw_text m)

unlines-join : (l : Bytes) (ls : List Bytes) → unlines (l ∷ ls) ≡ join (l ∷ ls) b'\n' ++ b'\n' ∷ []
unfolding unlines join
unlines-join l [] = refl
unlines-join l (k ∷ ls) = ap (λ s. l ++ b'\n' ∷ s) (unlines-join k ls) ∙ simp append_assoc

-- The loop over the lines of the body gives the body.
pub body-join : (ls : List Bytes) → ls ≢ [] → body ls ≡ join ls b'\n'
unfolding body
body-join [] h = absurd (h refl)
body-join (l ∷ ls) h =
    ap (λ s. trim_suffix s b'\n') (unlines-join l ls)
    ∙ trim_suffix-append (join (l ∷ ls) b'\n') b'\n'

pub body-split : (s : Bytes) → body (split s b'\n') ≡ s
body-split s = body-join (split s b'\n') (split-ne-nil s b'\n') ∙ join-split s b'\n'

tags_of-make_tags : (s : Bytes) {t : Tags} → make_tags s ≡ ok t → tags_of s ≡ ok t
unfolding tags_of
tags_of-make_tags s h = ground arith

date_of-scan : (s : Bytes) {z : ℤ} → scan_int64 s ≡ some z → date_of s ≡ ok z
unfolding date_of
date_of-scan s h = ground arith

-- The line that Encode writes for a message that has an id.
unfoldable pub bundle_line : Msg → Bytes
bundle_line m = m.msg_id ++ b':' ∷ Base64.encode Base64.std (raw_text m)

length-str_eq : (s : Bytes) → 0 < length s → str_eq s [] ≡ false
length-str_eq s h = ground (arith, str_eq_iff s [])

module _ (m : Msg) (v : IsStorable m) where
  split-raw_text :
      split (raw_text m) b'\n'
      ≡ to_string m.tags
        ∷ m.echo
        ∷ print_int m.date
        ∷ m.from
        ∷ m.addr
        ∷ m.to
        ∷ m.subj
        ∷ []
        ∷ split m.text b'\n'
  unfolding raw_text join
  split-raw_text = rw (
    split-append (to_string m.tags) _ b'\n' v.tags_line,
    split-append m.echo _ b'\n' v.echo_line,
    split-append (print_int m.date) _ b'\n' (print_int-Lacks b'\n' m.date (omega arith)),
    split-append m.from _ b'\n' v.from_line,
    split-append m.addr _ b'\n' v.addr_line,
    split-append m.to _ b'\n' v.to_line,
    split-append m.subj _ b'\n' v.subj_line,
    split-append [] m.text b'\n' tt,
  )

  tags_of-to_string : tags_of (to_string m.tags) ≡ ok m.tags
  tags_of-to_string =
      rw v.tags_props (tags_of-make_tags _ (make_tags-to_string v.props v.printable))

  date_of-print_int : date_of (print_int m.date) ≡ ok m.date
  date_of-print_int = date_of-scan _ (scan_int64-print_int m.date v.date_range)

  fields-lines :
      (ls : List Bytes)
      → ls ≢ []
      → fields m.msg_id
          (to_string m.tags ∷ m.echo ∷ print_int m.date ∷ m.from ∷ m.addr ∷ m.to ∷ m.subj ∷ [] ∷ ls)
        ≡ ok (record m { text = body ls })
  unfolding fields check is_subject
  fields-lines [] h = absurd (h refl)
  fields-lines (l ∷ ls) h = rw (tags_of-to_string, v.repto, v.good_echo, date_of-print_int)

  raw_text-fields : fields m.msg_id (split (raw_text m) b'\n') ≡ ok m
  raw_text-fields =
      ap (fields m.msg_id) split-raw_text
      ∙ fields-lines (split m.text b'\n') (split-ne-nil m.text b'\n')
      ∙ ap (λ s. ok (record m { text = s })) (body-split m.text)

  length-id : length m.msg_id ≡ 20
  length-id = let h = v.good_id in unfold is_msg_id in ground arith

  length-echo : 3 ≤ length m.echo
  length-echo = let h = v.good_echo in unfold is_echo in ground arith

  id-ne-nil : str_eq m.msg_id [] ≡ false
  id-ne-nil = length-str_eq m.msg_id (omega (arith, length-id))

  echo-ne-nil : str_eq m.echo [] ≡ false
  echo-ne-nil = length-str_eq m.echo (omega (arith, length-echo))

  -- Encode leaves a message that has an id and a date as it is.
  pub encode-bundle_line :
      (sha256 : Bytes → Bytes) (now : ℤ) → encode sha256 now m ≡ (bundle_line m, m)
  unfolding encode dated named bundle_line
  encode-bundle_line sha256 now = rw (echo-ne-nil, v.date_set, id-ne-nil)

  base64-IsText : All IsText (Base64.encode Base64.std (raw_text m))
  base64-IsText = encode-IsText (raw_text m) v.bytes

  base64-Lacks :
      (c : ℕ) → ((d : ℕ) → IsText d → d ≢ c) → Lacks c (Base64.encode Base64.std (raw_text m))
  base64-Lacks c h = All-imp IsText (λ d. d ≢ c) h _ base64-IsText

  split-bundle_line :
      split (bundle_line m) b':' ≡ m.msg_id ∷ Base64.encode Base64.std (raw_text m) ∷ []
  unfolding bundle_line
  split-bundle_line =
      split-append m.msg_id _ b':' v.id_colon
      ∙ ap (λ r. m.msg_id ∷ r) (split-Lacks _ b':' (base64-Lacks b':' (λ d p. omega arith)))

  from_data-raw_text :
      (sha256 : Bytes → Bytes) → from_data sha256 m.msg_id (some (raw_text m)) ≡ ok m
  unfolding from_data
  from_data-raw_text sha256 =
      rw (id-ne-nil, remove_all-Lacks (raw_text m) b'\r' v.no_cr) raw_text-fields

  from_base64-encode :
      (sha256 : Bytes → Bytes)
      → from_base64 sha256 m.msg_id (Base64.encode Base64.std (raw_text m)) ≡ ok m
  from_base64-encode sha256 =
      unfold from_base64 in
      rw
        (
          replace-Lacks (Base64.encode Base64.std (raw_text m)) b'-' b'+'
              (base64-Lacks b'-' (λ d p. omega arith)),
          replace-Lacks (Base64.encode Base64.std (raw_text m)) b'_' b'/'
              (base64-Lacks b'_' (λ d p. omega arith)),
          decode-encode (raw_text m) v.bytes,
        )
        (from_data-raw_text sha256)

  -- A line that Encode wrote is decoded to the message.
  pub decode_bundle-line : (sha256 : Bytes → Bytes) → decode_bundle sha256 (bundle_line m) ≡ ok m
  unfolding decode_bundle from_parts
  decode_bundle-line sha256 =
      let colon : contains (bundle_line m) b':' ≡ true =
        unfold bundle_line in contains-append_sep m.msg_id _ b':' in
      rw (colon, split-bundle_line, v.good_id) (from_base64-encode sha256)

module _ (sha256 : Bytes → Bytes) (now : ℤ) where
  raw_text-named : (m : Msg) → raw_text (named sha256 now m) ≡ raw_text m
  unfolding named raw_text
  raw_text-named m = ground arith

  echo-named : (m : Msg) → (named sha256 now (dated sha256 now m)).echo ≡ m.echo
  unfolding named dated
  echo-named m = ground arith

  encode-filled :
      (m : Msg)
      → str_eq m.echo [] ≡ false
      → encode sha256 now m ≡ (
        bundle_line (named sha256 now (dated sha256 now m)),
        named sha256 now (dated sha256 now m),
      )
  unfolding encode bundle_line
  encode-filled m h = rw h (
      ap
        (λ s. (
          (named sha256 now (dated sha256 now m)).msg_id ++ b':' ∷ Base64.encode Base64.std s,
          named sha256 now (dated sha256 now m),
        ))
        (sym (raw_text-named (dated sha256 now m))))

  encode_empty : (m : Msg) → str_eq m.echo [] ≡ true → encode sha256 now m ≡ ([], m)
  unfolding encode
  encode_empty m h = rw h

  -- A message is written as a line that is read back as the message with the date and the id that
  -- Encode filled in, if that message can be carried by a bundle.
  pub decode_bundle-encode :
      (m : Msg)
      → IsStorable (encode sha256 now m).1
      → decode_bundle sha256 (encode sha256 now m).0 ≡ ok (encode sha256 now m).1
  decode_bundle-encode m v = elim (Bool-cases (str_eq m.echo [])) [
    | inl e ↦ let w = rw (encode_empty m e) at v in absurd (ground (arith, echo-ne-nil m w))
    | inr n ↦ rw (encode-filled m n) (decode_bundle-line _ (rw (encode-filled m n) at v) sha256)
  ]

  -- What Encode writes is the line of the message that it leaves.
  pub encode-IsStorable :
      (m : Msg)
      → IsStorable (encode sha256 now m).1
      → encode sha256 now m ≡ (bundle_line (encode sha256 now m).1, (encode sha256 now m).1)
  encode-IsStorable m v = elim (Bool-cases (str_eq m.echo [])) [
    | inl e ↦ let w = rw (encode_empty m e) at v in absurd (ground (arith, echo-ne-nil m w))
    | inr n ↦ rw (encode-filled m n)
  ]
