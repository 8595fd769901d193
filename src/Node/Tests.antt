-- ===== src/Node/Tests.antt =====
-- Runs of the node's functions, and their theorems at concrete inputs.
use ii_go.Msg.Valid.{is_msg_id, is_echo, is_empty_subject, make_msg_id}
use ii_go.Db.State.Files.{text_of}
use ii_go.Db.Log.Names.{name-store_with}
use ii_go.Msg.Tags.RoundTrip.{of_pairs}
use ii_go.Db.Tests.{fresh, stored, stored-IsSynced}
use ii_go.Db.Log.{IsIndexable, bundle_text}
use ii_go.Msg.Tests.{no_digest, sample, raw_text-sample, form_msg}
use ii_go.Msg.Tags.{new_tags, get, get_or_empty, pieces, to_string}
use ii_go.Msg.Encode.{Msg, raw_text, dated, named, encode}
use ii_go.Msg.Decode.{body, good_repto, check}
use ii_go.Users.{User}
use ii_go.Users.Policy.{Udb}
use ii_go.Users.Load.{load_users}
use ii_go.Echoes.{no_areas}
use ii_go.Dict
use ii_go.Base64
use ii_go.Decimal.{print_int}
use ii_go.Strings.{split, join, contains, has_prefix, trim_suffix, trim, trim_space}
use ii_go.Node.Points.{Answer, signed, point_msg}
use ii_go.Node.Points.Laws.{Answered, point_msg-IsAllowed}
use ii_go.Base.{
  wrapped, residue, of_residue, ◌-◌, length, Bytes, codes, str_eq, pos, negsuc, ok, ◌^◌, ◌<◌, ◌≡◌,
  refl, inl, inr, Bool, true, false, Option, none, some, [], ◌∷◌, ◌++◌, arith,
}
use ii_go.Db.Lock.{no_dir, other_dir, dir_of, try_mkdir, locks, unlocks, unlocks-locks}
use ii_go.Node.Pager.{page_count, real_page, page_offset, make_pager}
use ii_go.Msg.Line.{either_base64, line_tags, line_fields, decode_msgline}
use ii_go.Msg.RoundTrip.{bundle_line}
use ii_go.Users.Account.{named_user, has_secret, user_info, id_of}
use ii_go.Node.Points.Posting.{IsGood, Posted, point_msg-IsGood}

last_page : (make_pager 120 (negsuc 0)).start ≡ 100
unfolding make_pager real_page page_offset page_count wrapped of_residue residue
last_page = refl

-- A page number whose offset overflows gives the first page.
overflow :
    ((make_pager 120 (pos (2 ^ 63 - 1))).page ≡ pos 1)
    × ((make_pager 120 (pos (2 ^ 63 - 1))).start ≡ 0)
unfolding make_pager real_page page_offset page_count wrapped of_residue residue
overflow = (refl, refl)

unlocks-locks_example :
    (unlocks 1 (locks 2 (λ n. false) (record { depth = 0; dir = other_dir }))
      ≡ record { depth = 1; dir = dir_of (try_mkdir 16 (λ n. false)) })
    × (unlocks 2 (locks 2 (λ n. false) (record { depth = 0; dir = other_dir }))
        ≡ record { depth = 0; dir = no_dir })
unlocks-locks_example = unlocks-locks 1 (λ n. false) other_dir

abbrev pub literal : Bytes → Option Bytes
literal s = some s

abbrev pub says : Bytes → Bytes → Bool
says r s = str_eq r s

abbrev pub root : User
root = record {
  id = pos 1;
  name = codes "root";
  mail = [];
  secret = codes "key";
  tags = new_tags [];
}

-- Users that are loaded, of a file that is gone.
abbrev pub one_user : Udb Bytes
one_user = record {
  file = none;
  policy_file = none;
  names = (codes "root", root) ∷ [];
  by_id = (pos 1, codes "root") ∷ [];
  secrets = (codes "key", codes "root") ∷ [];
  list = codes "root" ∷ [];
  file_size = 0;
  policy = [];
  policy_size = 0;
  new_users_max = pos 0;
  new_users = 0;
  locked = false;
}

pub same_users : load_users literal one_user ≡ (ok tt, one_user)
unfolding load_users
same_users = refl

abbrev post_line : Bytes
post_line = codes "c3RkLnRlc3QKQWxsCkhlbGxvCgpib2R5"

point_msg-IsAllowed_example :
    (a : Answer) × ((point_msg no_digest
        (pos 7)
        says
        literal
        no_areas
        (codes "key")
        post_line
        one_user
        stored).0.0
      ≡ ok a)
    × Answered no_digest
        (sample ∷ [])
        (codes "node")
        (pos 7)
        says
        no_areas
        one_user
        (codes "key")
        post_line
        a
        (point_msg no_digest
          (pos 7)
          says
          literal
          no_areas
          (codes "key")
          post_line
          one_user
          stored).0.1
point_msg-IsAllowed_example =
    point_msg-IsAllowed no_digest (sample ∷ []) (codes "node") (pos 7) says no_areas one_user
      (codes "key") post_line literal one_user stored same_users
      (stored-IsSynced, name-store_with no_digest (pos 5) sample false fresh)

abbrev posted_msg : Msg
posted_msg = record form_msg {
  msg_id = codes "AAAAAAAAAAAAAAAAAAAA";
  tags = of_pairs ((codes "ii", codes "ok") ∷ []);
  from = codes "root";
  addr = codes "node,1";
}

raw_text-posted_msg :
    raw_text posted_msg ≡ codes "ii/ok\nstd.test\n7\nroot\nnode,1\nAll\nHello\n\nbody"
unfolding raw_text join to_string print_int trim_suffix pieces Dict.get str_eq trim_space trim
raw_text-posted_msg = refl

posted_msg-IsIndexable : IsIndexable posted_msg
unfolding raw_text to_string trim_suffix is_msg_id is_echo get good_repto contains Dict.get str_eq
    get_or_empty trim_space trim
posted_msg-IsIndexable = record {
  storable = record {
    good_id = refl;
    id_colon = omega arith;
    props = (codes "ii", codes "ok") ∷ [];
    tags_props = refl;
    printable = record { distinct = (refl, tt); no_slash = omega arith; no_blank_ends = refl };
    tags_line = omega arith;
    repto = refl;
    good_echo = refl;
    echo_line = omega arith;
    date_range = omega arith;
    date_set = refl;
    from_line = omega arith;
    addr_line = omega arith;
    to_line = omega arith;
    subj_line = omega arith;
    bytes = rw raw_text-posted_msg (omega arith);
    no_cr = rw raw_text-posted_msg (omega arith);
  };
  id_line = omega arith;
  to_colon = omega arith;
  from_colon = omega arith;
  repto_column = (omega arith, omega arith);
}

encoded_mine :
    (encode no_digest
      (pos 7)
      (signed no_digest (pos 7) says form_msg root one_user (codes "key") (codes "node"))).1
    ≡ posted_msg
unfolding encode signed dated named id_of Dict.get str_eq trim_space make_msg_id new_tags print_int
    trim split Dict.put
encoded_mine = refl

line_decoded : decode_msgline (pos 7) post_line true ≡ ok form_msg
unfolding decode_msgline either_base64 check Base64.decode line_fields split str_eq is_echo
    trim_space is_empty_subject new_tags line_tags body trim has_prefix
line_decoded = refl

posted_fits : length (bundle_text ((sample ∷ []) ++ posted_msg ∷ [])) < 2 ^ 63
unfolding text_of bundle_line Base64.encode
posted_fits = rw (raw_text-posted_msg, raw_text-sample) (omega arith)

may_post :
    IsGood no_digest
      (sample ∷ [])
      (codes "node")
      (pos 7)
      says
      no_areas
      one_user
      (codes "key")
      post_line
      form_msg
      root
      posted_msg
unfolding has_secret user_info Dict.get str_eq get_or_empty trim_space new_tags named_user trim
    split Dict.put
may_post = record {
  known = refl;
  user_known = refl;
  line = line_decoded;
  parent = inl refl;
  unwatched = refl;
  rights = inr refl;
  encoded = encoded_mine;
  indexable = posted_msg-IsIndexable;
  fits = posted_fits;
}

point_msg-IsGood_example :
    (a : Answer) × ((point_msg no_digest
        (pos 7)
        says
        literal
        no_areas
        (codes "key")
        post_line
        one_user
        stored).0.0
      ≡ ok a)
    × Posted no_digest
        (sample ∷ [])
        (codes "node")
        (pos 7)
        says
        no_areas
        one_user
        (codes "key")
        post_line
        form_msg
        root
        posted_msg
        may_post
        a
        (point_msg no_digest
          (pos 7)
          says
          literal
          no_areas
          (codes "key")
          post_line
          one_user
          stored).0.1
point_msg-IsGood_example =
    point_msg-IsGood no_digest (sample ∷ []) (codes "node") (pos 7) says no_areas one_user
      (codes "key") post_line form_msg root posted_msg may_post literal one_user stored same_users
      (stored-IsSynced, name-store_with no_digest (pos 5) sample false fresh)

abbrev pub peter : User
peter = record root { id = pos 2; name = codes "Peter" }

pub stored_name : stored.name ≡ codes "node"
stored_name = name-store_with no_digest (pos 5) sample false fresh
