-- ===== src/Msg/Tests.antt =====
-- Runs of the message functions, and their theorems at concrete inputs.
use ii_go.Base.{
  length, Bytes, codes, str_eq, pos, ok, ℕ, zero, suc, ◌≤◌, ◌≡◌, refl, true, false, List, [], ◌∷◌,
  arith,
}
use ii_go.Strings.{split, join, contains, has_prefix, trim_suffix, trim, trim_space}
use ii_go.Decimal.{print_int}
use ii_go.Dict
use ii_go.Msg.Tags.{make_tags, get, pieces, to_string}
use ii_go.Msg.Tags.RoundTrip.{of_pairs, IsPrintable, make_tags-to_string}
use ii_go.Msg.Valid.{is_msg_id, is_echo, is_empty_subject}
use ii_go.Msg.Encode.{Msg, raw_text, encode}
use ii_go.Msg.Decode.{body, good_repto, check, decode_bundle}
use ii_go.Msg.RoundTrip.{
  IsStorable, bundle_line, encode-bundle_line, decode_bundle-line, decode_bundle-encode,
}
use ii_go.Msg.Decode.Sound.{IsDecoded, decode_bundle-IsDecoded}
use ii_go.Msg.Line.{repto_prefix, line_tags, line_fields, decode_msgline}
use ii_go.Msg.Line.Sound.{
  IsPosted, decode_msgline-IsPosted, post_text, posted, decode_msgline-post_text,
}
use ii_go.Msg.Valid.Laws.{IsDigest}

abbrev zeros : ℕ → Bytes
zeros zero = []
zeros (suc n) = 0 ∷ zeros n

-- A stand-in for the digest.
abbrev pub no_digest : Bytes → Bytes
no_digest s = zeros 32

no_digest-IsDigest : IsDigest no_digest
no_digest-IsDigest = record { size = λ s. refl; bytes = λ s. omega arith }

abbrev pub sample_props : List (Bytes × Bytes)
sample_props = (codes "ii", codes "ok") ∷ (codes "repto", codes "abcdefghijklmnopqrst") ∷ []

abbrev pub sample : Msg
sample = record {
  msg_id = codes "12345678901234567890";
  tags = of_pairs sample_props;
  echo = codes "std.test";
  date = pos 1598196151;
  from = codes "Peter";
  addr = codes "node,1";
  to = codes "All";
  subj = codes "Hello";
  text = codes "one\n\ntwo";
}

sample-IsPrintable : IsPrintable sample_props
unfolding to_string trim trim_suffix pieces Dict.get str_eq
sample-IsPrintable = record {
  distinct = (refl, (refl, tt));
  no_slash = omega arith;
  no_blank_ends = refl;
}

abbrev pub sample_text : Bytes
sample_text =
    codes
      "ii/ok/repto/abcdefghijklmnopqrst\nstd.test\n1598196151\nPeter\nnode,1\nAll\nHello\n\none\n\ntwo"

pub raw_text-sample : raw_text sample ≡ sample_text
unfolding raw_text join to_string print_int trim_suffix pieces Dict.get str_eq
raw_text-sample = refl

pub sample-IsStorable : IsStorable sample
unfolding raw_text to_string trim_suffix is_msg_id is_echo get good_repto contains Dict.get str_eq
sample-IsStorable = record {
  good_id = refl;
  id_colon = omega arith;
  props = sample_props;
  tags_props = refl;
  printable = sample-IsPrintable;
  tags_line = omega arith;
  repto = refl;
  good_echo = refl;
  echo_line = omega arith;
  date_range = omega arith;
  date_set = refl;
  from_line = omega arith;
  addr_line = omega arith;
  to_line = omega arith;
  subj_line = omega arith;
  bytes = rw raw_text-sample (omega arith);
  no_cr = rw raw_text-sample (omega arith);
}

encoded_sample : encode no_digest (pos 5) sample ≡ (bundle_line sample, sample)
encoded_sample = encode-bundle_line sample sample-IsStorable no_digest (pos 5)

encoded-IsStorable : IsStorable (encode no_digest (pos 5) sample).1
encoded-IsStorable = rw encoded_sample sample-IsStorable

pub decoded_sample : decode_bundle no_digest (bundle_line sample) ≡ ok sample
decoded_sample = decode_bundle-line sample sample-IsStorable no_digest

abbrev pub form_msg : Msg
form_msg = posted (pos 7) (codes "std.test") (codes "All") (codes "Hello") (codes "body")

good_form : is_echo (trim_space (codes " std.test")) ≡ true
unfolding is_echo trim_space
good_form = refl

good_form_subj : is_empty_subject (trim_space (codes "Hello")) ≡ true
unfolding is_empty_subject trim_space
good_form_subj = refl

no_prefix : has_prefix (codes "body\n") repto_prefix ≡ false
unfolding has_prefix
no_prefix = refl

short_form : length (post_text (codes " std.test") [] (codes "Hello") (codes "body\n")) ≤ 65536
unfolding post_text
short_form = omega arith

decode_bundle-encode_example :
    decode_bundle no_digest (encode no_digest (pos 5) sample).0
    ≡ ok (encode no_digest (pos 5) sample).1
decode_bundle-encode_example = decode_bundle-encode no_digest (pos 5) sample encoded-IsStorable

decode_bundle-IsDecoded_example : IsDecoded sample × (is_msg_id sample.msg_id ≡ true)
decode_bundle-IsDecoded_example =
    decode_bundle-IsDecoded no_digest no_digest-IsDigest (bundle_line sample) decoded_sample

make_tags-to_string_example :
    make_tags (to_string (of_pairs sample_props)) ≡ ok (of_pairs sample_props)
make_tags-to_string_example = make_tags-to_string sample_props sample-IsPrintable

abbrev pub form : Bytes
form = codes "std.test\nAll\nHello\n\nbody"

pub form_decoded : decode_msgline (pos 7) form false ≡ ok form_msg
unfolding decode_msgline check line_fields line_tags is_echo is_empty_subject trim_space body str_eq
    split has_prefix
form_decoded = refl

decode_msgline-IsPosted_example : IsPosted (pos 7) form_msg × (length form ≤ 65536)
decode_msgline-IsPosted_example = decode_msgline-IsPosted (pos 7) form false form_decoded

decode_msgline-post_text_example :
    decode_msgline (pos 7) (post_text (codes " std.test") [] (codes "Hello") (codes "body\n")) false
    ≡ ok (posted (pos 7) (codes " std.test") [] (codes "Hello") (codes "body\n"))
decode_msgline-post_text_example =
    decode_msgline-post_text (pos 7) (codes " std.test") [] (codes "Hello") (codes "body\n")
      good_form good_form_subj no_prefix (omega arith) (omega arith) (omega arith) short_form
