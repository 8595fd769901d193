-- ===== src/Db/Topics/Loops.antt =====
-- ii/db.go: GetTopics, where two messages reply to each other.
use ii_go.Base.{
  Bytes, str_eq, str_eq_refl, str_eq_iff, ℕ, zero, suc, ◌≡◌, refl, ◌∙◌, false, none, some, List, [],
  ◌∷◌, ◌++◌, arith,
}
use ii_go.Dict
use ii_go.Db.Index.{MsgInfo}
use ii_go.Db.Topics.Marks.{parent_of-set_topic}
use ii_go.Db.Topics.{
  Hash, visited, set_topic, parent_of, stops, mark_visited, walk, topic_of, topics_from, get_topics,
}

-- An entry that the walk passes on to another, its topic being known.
pub record Leads (hash : Hash) (i j : MsgInfo) : Type 0 where
  pub next : parent_of hash i.repto ≡ some j
  pub not_own : str_eq i.repto i.id ≡ false
  pub not_visited : str_eq i.topic visited ≡ false
  pub has_topic : str_eq i.topic [] ≡ false

walk-none :
    (fuel : ℕ) (echo : Bytes) {hash : Hash} {i j : MsgInfo} (l : List Bytes)
    → Leads hash i j
    → Leads hash j i
    → walk fuel echo hash l (some i) ≡ none
unfolding walk stops mark_visited
walk-none zero echo l h k = refl
walk-none (suc fuel) echo {hash} {i} l h k = ground (
  arith,
  h.next,
  h.not_own,
  h.not_visited,
  h.has_topic,
  walk-none fuel echo l k h,
  walk-none fuel echo (l ++ i.id ∷ []) k h,
)

-- Marking another entry leaves the two as they are.
Leads-set_topic :
    {hash : Hash} {i j : MsgInfo} (id t : Bytes)
    → str_eq id i.repto ≡ false
    → Leads hash i j
    → Leads (set_topic hash id t) i j
Leads-set_topic {hash} {i} id t d h = record {
  next = parent_of-set_topic hash id t i.repto d ∙ h.next;
  not_own = h.not_own;
  not_visited = h.not_visited;
  has_topic = h.has_topic;
}

walk-third :
    (fuel : ℕ) (hash : Hash) (m i j : MsgInfo)
    → Leads hash i j
    → Leads hash j i
    → parent_of hash m.repto ≡ some i
    → m.topic ≡ []
    → (str_eq m.repto m.id ≡ false) × (str_eq m.id i.repto ≡ false) × (str_eq m.id j.repto ≡ false)
    → walk fuel m.echo hash [] (some m) ≡ none
unfolding walk stops mark_visited str_eq
walk-third zero hash m i j h k e t d = refl
walk-third (suc fuel) hash m i j h k e t (d, di, dj) =
    let marked = set_topic hash m.id visited in
    let d' : str_eq m.id m.repto ≡ false =
      ground (arith, str_eq_iff m.id m.repto, str_eq_iff m.repto m.id) in
    let stuck =
      walk-none fuel m.echo ([] ++ m.id ∷ []) (Leads-set_topic m.id visited di h)
        (Leads-set_topic m.id visited dj k) in
    rw (t, d, str_eq_refl m.echo, parent_of-set_topic hash m.id visited m.repto d', e) stuck

-- While the index holds two entries that reply to each other, both with a topic, which is how a first
-- walk over them leaves them, no fuel is enough for a list that begins with a third entry that replies to
-- the first one and has no topic yet: GetTopics does not return.
pub get_topics-none :
    (fuel : ℕ) {hash : Hash} (id : Bytes) (mi : List Bytes) {m i j : MsgInfo}
    → Leads hash i j
    → Leads hash j i
    → Dict.get hash id ≡ some m
    → parent_of hash m.repto ≡ some i
    → m.topic ≡ []
    → (str_eq m.repto m.id ≡ false) × (str_eq m.id i.repto ≡ false) × (str_eq m.id j.repto ≡ false)
    → get_topics fuel (id ∷ mi) hash ≡ none
unfolding get_topics topics_from topic_of str_eq Dict.get
get_topics-none fuel {hash} id mi {m} {i} {j} h k e p t d =
    ground (arith, e, t, walk-third fuel hash m i j h k p t d)
