-- ===== src/Msg/Line/Sound.antt =====
-- What DecodeMsgline guarantees, and what becomes of a post of the web interface.
use mathlib.Core.Path.{subst}
use ii_go.Base.{
  leb, Bool-cases, length, Bytes, codes, str_eq, str_eq_refl, str_eq_iff, Lacks, ℤ, ok, ◌>>◌,
  first_ok, ◌≤◌, ◌≡◌, refl, ap, ◌∙◌, ◌≢◌, inl, inr, Bool, true, false, List, [], ◌∷◌, ◌++◌, arith,
}
use ii_go.Strings.{split, join, has_prefix, trim, trim_space}
use ii_go.Msg.Tags.{Tags, new_tags}
use ii_go.Msg.Valid.{is_echo, is_empty_subject}
use ii_go.Msg.Encode.{Msg}
use ii_go.Msg.Decode.{too_long, body, check}
use ii_go.Msg.Line.{either_base64, repto_prefix, or_all, line_tags, line_fields, decode_msgline}
use ii_go.Strings.Split.{split-ne-nil, split-append, join-split, has_prefix-join}
use ii_go.Msg.Tags.Laws.{IsListed, make_tags-IsListed, add_or_keep-IsListed}
use ii_go.Msg.RoundTrip.{body-split}

-- A fresh message of a point: a valid echo, somebody addressed, a subject, and the host's date.
pub record IsPosted (now : ℤ) (m : Msg) : Type 0 where
  pub good_echo : is_echo m.echo ≡ true
  pub addressed : m.to ≢ []
  pub subject : is_empty_subject m.subj ≡ true
  pub dated : m.date ≡ now
  pub unnamed : m.msg_id ≡ []
  pub unsigned : (m.from ≡ []) × (m.addr ≡ [])
  pub tagged : IsListed m.tags

or_all-ne-nil : (s : Bytes) → or_all s ≢ []
or_all-ne-nil s = ground (arith, str_eq_iff s [])

ii_ok : Tags
ii_ok = new_tags (codes "ii/ok")

ii_ok-IsListed : IsListed ii_ok
unfolding ii_ok new_tags str_eq trim split
ii_ok-IsListed = make_tags-IsListed (codes "ii/ok") refl

line_tags-IsListed : (t4 : Bytes) → IsListed (line_tags t4)
unfolding line_tags ii_ok
line_tags-IsListed t4 = elim (Bool-cases (has_prefix t4 repto_prefix)) [
  | inl e ↦ rw e (add_or_keep-IsListed ii_ok _ ii_ok-IsListed)
  | inr n ↦ rw n ii_ok-IsListed
]

line_fields-IsPosted :
    (now : ℤ) (text : List Bytes) {m : Msg} → line_fields now text ≡ ok m → IsPosted now m
unfolding line_fields check
line_fields-IsPosted now (t0 ∷ t1 ∷ t2 ∷ t3 ∷ t4 ∷ rest) {m} h = record {
  good_echo = ground arith;
  addressed = ground (arith, or_all-ne-nil (trim_space t1));
  subject = ground arith;
  dated = ground arith;
  unnamed = ground arith;
  unsigned = (ground arith, ground arith);
  tagged = let e : line_tags t4 ≡ m.tags = ground arith in subst IsListed e (line_tags-IsListed t4);
}
line_fields-IsPosted now _ h = cc

-- A line that DecodeMsgline accepts, encoded or not, is at most 65536 bytes long and gives a message
-- with a valid echo, a recipient and a subject that are not empty, the host's date, and neither id
-- nor sender; all its tags are in the list.
pub decode_msgline-IsPosted :
    (now : ℤ) (s : Bytes) (enc : Bool) {m : Msg}
    → decode_msgline now s enc ≡ ok m
    → IsPosted now m × (length s ≤ 65536)
unfolding decode_msgline check
decode_msgline-IsPosted now s true {m} h =
    let (text, f, e) =
      first_ok (λ t. line_fields now (split t b'\n')) m
        (check (leb (length s) 65536) too_long >> either_base64 s) (ground arith) in
    (line_fields-IsPosted now (split text b'\n') f, ground arith)
decode_msgline-IsPosted now s false {m} h =
    (line_fields-IsPosted now (split s b'\n') (ground arith), ground arith)

-- The text that the web interface makes of a form (www_new in ii-node/web.go).
unfoldable pub post_text : Bytes → Bytes → Bytes → Bytes → Bytes
post_text echo to subj msg = echo ++ b'\n' ∷ (to ++ b'\n' ∷ (subj ++ b'\n' ∷ b'\n' ∷ msg))

abbrev pub posted : ℤ → Bytes → Bytes → Bytes → Bytes → Msg
posted now echo to subj msg = record {
  msg_id = [];
  tags = new_tags (codes "ii/ok");
  echo = trim_space echo;
  date = now;
  from = [];
  addr = [];
  to = or_all (trim_space to);
  subj = trim_space subj;
  text = msg;
}

module _ (now : ℤ) (echo to subj msg : Bytes) (good : is_echo (trim_space echo) ≡ true)
    (some_subj : is_empty_subject (trim_space subj) ≡ true)
    (no_repto : has_prefix msg repto_prefix ≡ false) where
  line_fields-post :
      (ls : List Bytes)
      → ls ≢ []
      → join ls b'\n' ≡ msg
      → line_fields now (echo ∷ to ∷ subj ∷ [] ∷ ls) ≡ ok (posted now echo to subj (body ls))
  unfolding line_fields check line_tags
  line_fields-post [] h e = absurd (h refl)
  line_fields-post (l ∷ ls) h e =
      let first : has_prefix l repto_prefix ≡ false =
        ground (arith, has_prefix-join l ls b'\n' repto_prefix) in
      rw (str_eq_refl [], good, some_subj, first)

  split-post_text :
      Lacks b'\n' echo
      → Lacks b'\n' to
      → Lacks b'\n' subj
      → split (post_text echo to subj msg) b'\n' ≡ echo ∷ to ∷ subj ∷ [] ∷ split msg b'\n'
  unfolding post_text
  split-post_text le lt ls = rw (
    split-append echo _ b'\n' le,
    split-append to _ b'\n' lt,
    split-append subj _ b'\n' ls,
    split-append [] msg b'\n' tt,
  )

  -- A form's fields, each of one line, with an echo that is valid and a subject that is not empty when
  -- trimmed, and a body that does not begin with @repto:, come back from
  -- DecodeMsgline trimmed, the body unchanged, if the text is at most 65536 bytes long.
  pub decode_msgline-post_text :
      Lacks b'\n' echo
      → Lacks b'\n' to
      → Lacks b'\n' subj
      → length (post_text echo to subj msg) ≤ 65536
      → decode_msgline now (post_text echo to subj msg) false ≡ ok (posted now echo to subj msg)
  unfolding decode_msgline check
  decode_msgline-post_text le lt ls fits =
      let short : leb (length (post_text echo to subj msg)) 65536 ≡ true = ground arith in
      rw (short, split-post_text le lt ls)
        (line_fields-post (split msg b'\n') (split-ne-nil msg b'\n') (join-split msg b'\n')
          ∙ ap (λ s. ok (posted now echo to subj s)) (body-split msg))
