-- ===== src/Net/Tests.antt =====
-- Runs of the requests to other nodes, and their theorems at concrete inputs.
use ii_go.Base.{
  if◌then◌else◌, Bytes, codes, str_eq, ℤ, pos, negsuc, residue, of_residue, ok, ◌≡◌, refl, inl,
  false, List, [], ◌∷◌,
}
use ii_go.Dict
use ii_go.Base64
use ii_go.Strings.{split, contains}
use ii_go.Msg.Decode.{decode_bundle}
use ii_go.Msg.RoundTrip.{bundle_line}
use ii_go.Msg.Tests.{no_digest, sample, raw_text-sample, decoded_sample}
use ii_go.Db.State.Files.{lines}
use ii_go.Db.Log.{IsSynced, latest}
use ii_go.Db.Tests.{fresh, fresh-IsSynced, sample-IsIndexable, sample_fits, stored, stored-IsSynced}
use ii_go.Net.{
  Response, answer, final_line, http_req_lines, negated, doubled, Node, is_feature, store_ids,
  found_limit, ids_url, fetcher,
}
use ii_go.Net.Batches.{concat, IsBatched, batches, ask_batches, store_ids-batches}
use ii_go.Net.Storing.{add_new, grow, IsLine, Fits, taken, fails, store_ids-IsSynced}
use ii_go.Net.Missing.{missing, brings}
use ii_go.Net.Fetching.{given, IsHonest, HasAll, Asks, fetcher-HasAll}
use ii_go.Net.Adaptive.{IsLimit, found_limit-IsLimit}

abbrev ids : List Bytes
ids = sample.msg_id ∷ []

-- A node that has one message, and the line of its bundle.
abbrev site : Node
site = record { host = []; features = []; force = false }

abbrev serve : Bytes → Response
serve url =
    if str_eq url (codes "/u/e/std.test")
    then answer (codes "12345678901234567890\n") false
    else answer
        (codes
          "12345678901234567890:aWkvb2svcmVwdG8vYWJjZGVmZ2hpamtsbW5vcHFyc3QKc3RkLnRlc3QKMTU5ODE5NjE1MQpQZXRlcgpub2RlLDEKQWxsCkhlbGxvCgpvbmUKCnR3bw==\n")
        false

store_ids-batches_example :
    (bs : List (List Bytes)) × (concat bs ≡ ids)
    × IsBatched bs
    × (store_ids serve no_digest (pos 5) site ids [] 0
        ≡ ask_batches serve no_digest (pos 5) site bs)
store_ids-batches_example = store_ids-batches serve no_digest (pos 5) site ids

one_batch : batches [] ids ≡ ids ∷ []
unfolding batches
one_batch = refl

line_given :
    taken serve no_digest (pos 5) site (batches [] ids)
    ≡ codes
        "12345678901234567890:aWkvb2svcmVwdG8vYWJjZGVmZ2hpamtsbW5vcHFyc3QKc3RkLnRlc3QKMTU5ODE5NjE1MQpQZXRlcgpub2RlLDEKQWxsCkhlbGxvCgpvbmUKCnR3bw=="
      ∷ []
unfolding taken batches http_req_lines final_line lines split str_eq
line_given = refl

pub line_sample :
    bundle_line sample
    ≡ codes
        "12345678901234567890:aWkvb2svcmVwdG8vYWJjZGVmZ2hpamtsbW5vcHFyc3QKc3RkLnRlc3QKMTU5ODE5NjE1MQpQZXRlcgpub2RlLDEKQWxsCkhlbGxvCgpvbmUKCnR3bw=="
unfolding bundle_line Base64.encode
line_sample = rw raw_text-sample refl

decoded_line :
    decode_bundle no_digest (
      codes
        "12345678901234567890:aWkvb2svcmVwdG8vYWJjZGVmZ2hpamtsbW5vcHFyc3QKc3RkLnRlc3QKMTU5ODE5NjE1MQpQZXRlcgpub2RlLDEKQWxsCkhlbGxvCgpvbmUKCnR3bw==")
    ≡ ok sample
decoded_line = rw (← line_sample) decoded_sample

good_line : IsLine no_digest (
    codes
      "12345678901234567890:aWkvb2svcmVwdG8vYWJjZGVmZ2hpamtsbW5vcHFyc3QKc3RkLnRlc3QKMTU5ODE5NjE1MQpQZXRlcgpub2RlLDEKQWxsCkhlbGxvCgpvbmUKCnR3bw==")
unfolding IsLine
good_line m e = let same : sample ≡ m = cc (decoded_line, e) in rw (← same) sample-IsIndexable

grown : grow no_digest [] (taken serve no_digest (pos 5) site (batches [] ids)) ≡ sample ∷ []
unfolding grow add_new latest
grown = rw (line_given, decoded_line) refl

grown_fits : Fits (grow no_digest [] (taken serve no_digest (pos 5) site (batches [] ids)))
grown_fits = rw grown sample_fits

store_ids-IsSynced_example :
    ((store_ids serve no_digest (pos 5) site ids [] 0 fresh).0
      ≡ ok (fails serve no_digest (pos 5) site (batches [] ids)))
    × IsSynced
        (store_ids serve no_digest (pos 5) site ids [] 0 fresh).1
        (grow no_digest [] (taken serve no_digest (pos 5) site (batches [] ids)))
store_ids-IsSynced_example =
    store_ids-IsSynced serve no_digest (pos 5) site fresh [] ids fresh-IsSynced
      (rw line_given (good_line, tt)) grown_fits

missing-ids : missing [] ids ≡ ids
unfolding missing latest contains
missing-ids = refl

honest :
    IsHonest serve no_digest
      (pos 5)
      site
      []
      (ids_url serve no_digest (pos 5) site (codes "std.test") (pos 0))
      ids
unfolding ids_url http_req_lines final_line lines split str_eq fails batches brings
honest = record {
  listed = refl;
  whole = rw missing-ids refl;
  lines = rw (missing-ids, line_given) (good_line, tt);
  all_come = rw (missing-ids, line_given, decoded_line) (refl, tt);
  fits = rw missing-ids grown_fits;
}

fetcher-HasAll_example :
    ((fetcher serve no_digest (pos 5) site (codes "std.test") (pos 0) fresh).0 ≡ ok tt)
    × IsSynced
        (fetcher serve no_digest (pos 5) site (codes "std.test") (pos 0) fresh).1
        (grow no_digest [] (given serve no_digest (pos 5) site [] ids))
    × HasAll serve no_digest
        (pos 5)
        site
        ids
        (grow no_digest [] (given serve no_digest (pos 5) site [] ids))
fetcher-HasAll_example =
    fetcher-HasAll serve no_digest (pos 5) site fresh [] ids (codes "std.test") (pos 0) (pos 0)
      fresh-IsSynced (unfold Asks is_feature Dict.get in inl (refl, refl)) honest

abbrev one_id : Bytes → Response
one_id url = answer (codes "12345678901234567890\n") false

found_limit-IsLimit_example :
    (z : ℤ) × ((found_limit one_id no_digest (pos 5) site (codes "std.test") (negsuc 9) stored).0
      ≡ ok z)
    × IsSynced
        (found_limit one_id no_digest (pos 5) site (codes "std.test") (negsuc 9) stored).1
        (sample ∷ [])
    × IsLimit one_id no_digest
        (pos 5)
        site
        (sample ∷ [])
        (codes "std.test")
        17
        (negated (negsuc 9))
        z
found_limit-IsLimit_example =
    found_limit-IsLimit one_id no_digest (pos 5) site stored (sample ∷ []) (codes "std.test")
      (negsuc 9) stored-IsSynced refl

ten : negated (negsuc 9) ≡ pos 10
unfolding negated of_residue residue
ten = refl

twenty : doubled (pos 10) ≡ pos 20
unfolding doubled of_residue residue
twenty = refl
