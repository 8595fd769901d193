-- ===== src/Db/Topics/Marks.antt =====
-- ii/db.go: GetTopics, what a write of a topic leaves in the index.
use mathlib.Core.Option
use ii_go.Base.{
  if◌then◌else◌, Bool-cases, Option-cases, Bytes, str_eq, str_eq_iff, ◌≡◌, refl, inl, inr, false,
  none, some,
}
use ii_go.Dict
use ii_go.Db.Index.{MsgInfo}
use ii_go.Db.Topics.{Hash, set_topic, parent_of}

abbrev pub with_topic : Bytes → MsgInfo → MsgInfo
with_topic t i = record i { topic = t }

set_topic-none : (hash : Hash) (id t : Bytes) → Dict.get hash id ≡ none → set_topic hash id t ≡ hash
unfolding set_topic
set_topic-none hash id t e = rw (set_topic, e) refl

set_topic-some :
    (hash : Hash) (id t : Bytes) {i : MsgInfo}
    → Dict.get hash id ≡ some i
    → set_topic hash id t ≡ Dict.put hash id (with_topic t i)
unfolding set_topic
set_topic-some hash id t e = rw (set_topic, e) refl

pub get-set_topic :
    (hash : Hash) (id t k : Bytes)
    → Dict.get (set_topic hash id t) k
      ≡ (if str_eq id k then Option.map (with_topic t) (Dict.get hash k) else Dict.get hash k)
get-set_topic hash id t k = elim (Option-cases (Dict.get hash id)) [
  | inl e ↦ rw (set_topic-none hash id t e) (elim (Bool-cases (str_eq id k)) [
    | inl same ↦ rw (same, ← (str_eq_iff id k).0 same, e) refl
    | inr other ↦ rw other refl
  ])
  | inr (i, e) ↦
      rw (set_topic-some hash id t e, Dict.get-put hash id k (with_topic t i))
        (elim (Bool-cases (str_eq id k)) [
          | inl same ↦ rw (same, ← (str_eq_iff id k).0 same, e) refl
          | inr other ↦ rw other refl
        ])
]

pub parent_of-set_topic :
    (hash : Hash) (id t r : Bytes)
    → str_eq id r ≡ false
    → parent_of (set_topic hash id t) r ≡ parent_of hash r
unfolding parent_of
parent_of-set_topic hash id t r d = rw (get-set_topic hash id t r, d) refl
