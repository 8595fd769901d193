-- ===== src/Tool/Tests.antt =====
-- Runs of the command line tool, and its theorems at concrete inputs.
use ii_go.Dict
use ii_go.Base64
use ii_go.Strings.{split, join, contains, trim_suffix, trim}
use ii_go.Decimal.{print_int}
use ii_go.Msg.Tags.{get, get_or_empty, pieces, to_string}
use ii_go.Msg.Tags.RoundTrip.{of_pairs}
use ii_go.Msg.Valid.{is_msg_id, is_echo}
use ii_go.Msg.Encode.{Msg, raw_text}
use ii_go.Msg.Decode.{decode_bundle, from_parts, good_repto}
use ii_go.Msg.RoundTrip.{bundle_line}
use ii_go.Msg.Tests.{no_digest, sample, raw_text-sample, decoded_sample}
use ii_go.Db.State.{Db}
use ii_go.Db.State.Files.{text_of}
use ii_go.Db.Access.{store_with}
use ii_go.Db.Log.{IsIndexable, bundle_text, IsSynced, latest, is_stored}
use ii_go.Db.Log.Get.{is_hidden, shows}
use ii_go.Db.Log.Store.{store_with-IsSynced}
use ii_go.Db.Tests.{stored, stored-IsSynced}
use ii_go.Net.Tests.{line_sample}
use ii_go.Tool.Import.{import_lines, import_lines-blacklisted}
use ii_go.Base.{
  ap, length, Bytes, codes, str_eq, pos, ok, ◌^◌, ◌≤◌, ◌<◌, ◌≡◌, refl, ◌⊎◌, true, false, ◌&&◌, not,
  none, List, [], ◌∷◌, ◌++◌, arith,
}
use ii_go.Tool.Clean.{no_dups, written, clean}
use ii_go.Tool.Clean.Spec.{count, compact}
use ii_go.Tool.Clean.Correct.{clean-compact}

-- An edited message, and one that was not.
abbrev bundles : List Bytes
bundles =
    codes "aaaaaaaaaaaaaaaaaaaa:old"
    ∷ codes "bbbbbbbbbbbbbbbbbbbb:one"
    ∷ codes "aaaaaaaaaaaaaaaaaaaa:new"
    ∷ []

clean-compact_example :
    (clean bundles bundles ≡ written (compact bundles [] bundles))
    ⊎ ((clean bundles bundles ≡ no_dups) × ((id : Bytes) → count id bundles ≤ 1))
clean-compact_example = clean-compact bundles

-- The message, blacklisted.
abbrev hidden_props : List (Bytes × Bytes)
hidden_props = (codes "ii", codes "ok") ∷ (codes "access", codes "blacklist") ∷ []

abbrev hidden : Msg
hidden = record sample { tags = of_pairs hidden_props }

raw_text-hidden :
    raw_text hidden
    ≡ codes "ii/ok/access/blacklist\nstd.test\n1598196151\nPeter\nnode,1\nAll\nHello\n\none\n\ntwo"
unfolding raw_text join to_string print_int trim_suffix pieces Dict.get str_eq
raw_text-hidden = refl

hidden-IsIndexable : IsIndexable hidden
unfolding raw_text to_string trim trim_suffix pieces is_msg_id is_echo get good_repto contains
    Dict.get str_eq get_or_empty
hidden-IsIndexable = record {
  storable = record {
    good_id = refl;
    id_colon = omega arith;
    props = hidden_props;
    tags_props = refl;
    printable = record {
      distinct = (refl, (refl, tt));
      no_slash = omega arith;
      no_blank_ends = refl;
    };
    tags_line = omega arith;
    repto = refl;
    good_echo = refl;
    echo_line = omega arith;
    date_range = omega arith;
    date_set = refl;
    from_line = omega arith;
    addr_line = omega arith;
    to_line = omega arith;
    subj_line = omega arith;
    bytes = rw raw_text-hidden (omega arith);
    no_cr = rw raw_text-hidden (omega arith);
  };
  id_line = omega arith;
  to_colon = omega arith;
  from_colon = omega arith;
  repto_column = (omega arith, omega arith);
}

both_fit : length (bundle_text ((sample ∷ []) ++ hidden ∷ [])) < 2 ^ 63
unfolding text_of bundle_line Base64.encode
both_fit = rw (raw_text-hidden, raw_text-sample) (omega arith)

abbrev blacklisted : Db
blacklisted = (store_with no_digest (pos 5) hidden true stored).1

edited : (is_stored (latest hidden.msg_id 0 (sample ∷ [])) && not true) ≡ false
unfolding latest str_eq
edited = refl

blacklisted-IsSynced : IsSynced blacklisted (sample ∷ hidden ∷ [])
blacklisted-IsSynced =
    let done =
      store_with-IsSynced no_digest (pos 5) stored (sample ∷ []) hidden true stored-IsSynced
        hidden-IsIndexable both_fit in
    rw edited at done.1

not_shown : shows false (latest sample.msg_id 0 (sample ∷ hidden ∷ [])) ≡ none
unfolding latest shows is_hidden str_eq get_or_empty Dict.get get
not_shown = rw line_sample refl

-- A line that cannot be decoded does not end the program.
bad_line_passes :
    import_lines no_digest (pos 5) (codes "a:b:c" ∷ []) blacklisted ≡ (ok false, blacklisted)
unfolding import_lines decode_bundle split contains from_parts
bad_line_passes = refl

import_lines-blacklisted_example :
    ((import_lines no_digest (pos 5) (codes "a:b:c" ∷ bundle_line sample ∷ []) blacklisted).0
      ≡ ok true)
    × IsSynced
        (import_lines no_digest (pos 5) (codes "a:b:c" ∷ bundle_line sample ∷ []) blacklisted).1
        (sample ∷ hidden ∷ [])
unfolding str_eq latest
import_lines-blacklisted_example =
    import_lines-blacklisted no_digest (pos 5) blacklisted (codes "a:b:c" ∷ [])
      (sample ∷ hidden ∷ []) (bundle_line sample) [] sample (ap (λ r. r.0) bad_line_passes)
      (rw bad_line_passes blacklisted-IsSynced) decoded_sample refl not_shown
