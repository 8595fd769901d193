-- ===== src/Db/Topics/Ends.antt =====
-- ii/db.go: GetTopics, where every message is younger than the one it replies to.
use mathlib.Core.Option
use ii_go.Base.{
  Bool-cases, Option-cases, Bytes, str_eq, ℕ, zero, suc, ◌<◌, ◌≡◌, refl, ap, ◌∙◌, inl, inr, Option,
  none, some, List, [], ◌∷◌, ◌++◌, arith,
}
use ii_go.Dict
use ii_go.Db.Index.{MsgInfo}
use ii_go.Db.Topics.Marks.{with_topic, get-set_topic}
use ii_go.Db.Topics.{
  Hash, visited, set_topic, parent_of, stops, mark_visited, walk, Topics, append_to, is_in, assign,
  walked, known_topic, topic_of, topics_from, get_topics,
}
use ii_go.Db.Access.{visible}

-- An entry without its topic.
abbrev pub bare : MsgInfo → MsgInfo
bare i = record i { topic = [] }

abbrev pub bare_at : Hash → Bytes → Option MsgInfo
bare_at hash id = Option.map bare (Dict.get hash id)

-- Two indexes that differ in their topics only.
unfoldable pub Retopics : Hash → Hash → Type 0
Retopics h k = (id : Bytes) → bare_at h id ≡ bare_at k id

-- Every entry is below the fuel, and above its parent.
pub record IsOrderly (fuel : ℕ) (hash : Hash) : Type 0 where
  pub below : (id : Bytes) (i : MsgInfo) → Dict.get hash id ≡ some i → i.num < fuel
  pub descends :
      (id : Bytes) (i p : MsgInfo)
      → Dict.get hash id ≡ some i
      → parent_of hash i.repto ≡ some p
      → p.num < i.num

map-bare :
    (o : Option MsgInfo) (t : Bytes)
    → Option.map bare o ≡ Option.map bare (Option.map (with_topic t) o)
unfolding Option.map
map-bare none t = refl
map-bare (some i) t = refl

set_topic-Retopics : (hash : Hash) (id t : Bytes) → Retopics hash (set_topic hash id t)
unfolding Retopics
set_topic-Retopics hash id t k = rw (get-set_topic hash id t k) (elim (Bool-cases (str_eq id k)) [
  | inl same ↦ rw same (map-bare (Dict.get hash k) t)
  | inr other ↦ rw other refl
])

-- What a changed index holds, the old one held.
bare-some :
    (o o' : Option MsgInfo) {i : MsgInfo}
    → Option.map bare o ≡ Option.map bare o'
    → o' ≡ some i
    → (j : MsgInfo) × (o ≡ some j) × (bare j ≡ bare i)
unfolding Option.map
bare-some none o' e h = cc
bare-some (some j) none e h = cc
bare-some (some j) (some i) e h = (j, refl, cc)

-- The entry that the walk goes to stands in the index.
parent_of-get :
    (h : Hash) (r : Bytes) {p : MsgInfo} → parent_of h r ≡ some p → Dict.get h r ≡ some p
unfolding parent_of visible
parent_of-get h r e = ground arith

parent_of-bare :
    (h k : Hash) (r : Bytes) {p : MsgInfo}
    → Retopics h k
    → parent_of k r ≡ some p
    → (q : MsgInfo) × (parent_of h r ≡ some q) × (bare q ≡ bare p)
unfolding Retopics parent_of visible
parent_of-bare h k r {p} same e =
    let (q, eq, b) = bare-some (Dict.get h r) (Dict.get k r) (same r) (parent_of-get k r e) in
    (q, ground (arith, e, eq, parent_of-get k r e, ap (λ (x : MsgInfo). x.off) b), b)

IsOrderly-Retopics : (n : ℕ) (h k : Hash) → Retopics h k → IsOrderly n h → IsOrderly n k
unfolding Retopics
IsOrderly-Retopics n h k same o = record {
  below = λ id i e.
      let (j, ej, b) = bare-some (Dict.get h id) (Dict.get k id) (same id) e in
      rw (← ap (λ (x : MsgInfo). x.num) b) (o.below id j ej);
  descends = λ id i p e ep.
      let (j, ej, b) = bare-some (Dict.get h id) (Dict.get k id) (same id) e in
      let (q, eq, c) = parent_of-bare h k i.repto same ep in
      rw (← ap (λ (x : MsgInfo). x.num) b, ← ap (λ (x : MsgInfo). x.num) c)
        (o.descends id j q ej (rw (ap (λ (x : MsgInfo). x.repto) b) eq));
}

-- How the walk from an entry ends.
abbrev Walked : ℕ → Bytes → Hash → List Bytes → Option MsgInfo → Type 0
Walked fuel echo hash l o =
    (r : Hash × List Bytes) × (walk fuel echo hash l o ≡ some r) × Retopics hash r.0

Retopics-refl : (h : Hash) → Retopics h h
unfolding Retopics
Retopics-refl h id = refl

mark_visited-Retopics : (hash : Hash) (p : MsgInfo) → Retopics hash (mark_visited hash p)
unfolding mark_visited
mark_visited-Retopics hash p = elim (Bool-cases (str_eq p.topic [])) [
  | inl e ↦ rw e (set_topic-Retopics hash p.id visited)
  | inr e ↦ rw e (Retopics-refl hash)
]

Retopics-trans : (h k m : Hash) → Retopics h k → Retopics k m → Retopics h m
unfolding Retopics
Retopics-trans h k m p q id = p id ∙ q id

walk-end :
    (fuel : ℕ) (echo : Bytes) (hash : Hash) (l : List Bytes)
    → walk fuel echo hash l none ≡ some (hash, l)
unfolding walk
walk-end zero echo hash l = refl
walk-end (suc fuel) echo hash l = refl

-- The walk goes on from an entry of an index h, at an index k that differs in its topics.
next-ends :
    (fuel n : ℕ) (echo : Bytes) (h k : Hash) (l : List Bytes) (id : Bytes) (p : MsgInfo)
    → IsOrderly n h
    → Retopics h k
    → Dict.get h id ≡ some p
    → p.num < suc fuel
    → ((q : MsgInfo) → Dict.get k p.repto ≡ some q → q.num < fuel → Walked fuel echo k l (some q))
    → (r : Hash × List Bytes) × (walk fuel echo k l (parent_of k p.repto) ≡ some r) × Retopics h r.0
next-ends fuel n echo h k l id p o same e b ih = elim (Option-cases (parent_of k p.repto)) [
  | inl end ↦ ((k, l), rw end (walk-end fuel echo k l), same)
  | inr (q, eq) ↦
      let (q', eq', c) = parent_of-bare h k p.repto same eq in
      let less = o.descends id p q' e eq' in
      let below : q.num < fuel = omega (arith, ap (λ (x : MsgInfo). x.num) c) in
      let (r, w, t) = ih q (parent_of-get k p.repto eq) below in
      (r, rw eq w, Retopics-trans h k r.0 same t)
]

walk-ends :
    (fuel n : ℕ) (echo : Bytes) (hash : Hash) (l : List Bytes) (id : Bytes) (p : MsgInfo)
    → IsOrderly n hash
    → Dict.get hash id ≡ some p
    → p.num < fuel
    → Walked fuel echo hash l (some p)
unfolding walk
walk-ends zero n echo hash l id p o e b = absurd (omega arith)
walk-ends (suc fuel) n echo hash l id p o e b =
    let marked = mark_visited hash p in
    let same = mark_visited-Retopics hash p in
    let other =
      next-ends fuel n echo hash hash l id p o (Retopics-refl hash) e b
        (λ q eq less. walk-ends fuel n echo hash l p.repto q o eq less) in
    let mine = next-ends fuel n echo hash marked (l ++ p.id ∷ []) id p o same e b (λ q eq less.
      walk-ends fuel n echo marked (l ++ p.id ∷ []) p.repto q
        (IsOrderly-Retopics n hash marked same o) eq less) in
    elim (Bool-cases (stops p)) [
      | inl s ↦ ((set_topic hash p.id [], l), rw (s) refl, set_topic-Retopics hash p.id [])
      | inr s ↦ elim (Bool-cases (str_eq echo p.echo)) [
        | inl here ↦ (mine.0, rw (s, here) mine.1, mine.2)
        | inr away ↦ (other.0, rw (s, away) other.1, other.2)
      ]
    ]

assign-Retopics : (t : Bytes) (l : List Bytes) (s : Topics) → Retopics s.hash (assign t l s).hash
unfolding assign
assign-Retopics t [] s = Retopics-refl s.hash
assign-Retopics t (id ∷ l) s = elim (Bool-cases (str_eq id t)) [
  | inl own ↦
      let u : Topics = record s { hash = set_topic s.hash id t } in
      rw (assign, own)
        (Retopics-trans s.hash u.hash (assign t l u).hash (set_topic-Retopics s.hash id t)
          (assign-Retopics t l u))
  | inr other ↦ elim (Bool-cases (is_in s.intopic id)) [
    | inl known ↦ rw (assign, other, known) (assign-Retopics t l s)
    | inr new ↦
        let u : Topics = record {
          topics = append_to s.topics t id;
          intopic = Dict.put s.intopic id t;
          hash = set_topic s.hash id t;
        } in
        rw (assign, other, new)
          (Retopics-trans s.hash u.hash (assign t l u).hash (set_topic-Retopics s.hash id t)
            (assign-Retopics t l u))
  ]
]

walked-Retopics :
    (s : Topics) (r : Hash × List Bytes) → Retopics s.hash r.0 → Retopics s.hash (walked s r).hash
unfolding walked
walked-Retopics s (hash, []) same = same
walked-Retopics s (hash, x ∷ l) same = Retopics-trans s.hash hash _ same (assign-Retopics _ _ _)

known_topic-hash : (m : MsgInfo) (s : Topics) → (known_topic m s).hash ≡ s.hash
unfolding known_topic
known_topic-hash m s = ground arith

-- What a step leaves of the index.
abbrev Ended : Topics → Option Topics → Type 0
Ended s o = (t : Topics) × (o ≡ some t) × Retopics s.hash t.hash

topic_of-ends :
    (n : ℕ) (m : MsgInfo) (s : Topics) (id : Bytes)
    → IsOrderly n s.hash
    → Dict.get s.hash id ≡ some m
    → Ended s (topic_of n m s)
unfolding topic_of
topic_of-ends n m s id o e = elim (Bool-cases (is_in s.intopic m.id)) [
  | inl known ↦ (s, rw known refl, Retopics-refl s.hash)
  | inr new ↦ elim (Bool-cases (str_eq m.topic [])) [
    | inl none_yet ↦
        let w = walk-ends n n m.echo s.hash [] id m o e (o.below id m e) in
        (
          walked s w.0,
          rw (new, none_yet, w.1) (unfold Option.map in refl),
          walked-Retopics s w.0 w.2,
        )
    | inr fast ↦
        (known_topic m s, rw (new, fast) refl, rw (known_topic-hash m s) (Retopics-refl s.hash))
  ]
]

topics_from-ends :
    (n : ℕ) (mi : List Bytes) (s : Topics) → IsOrderly n s.hash → Ended s (topics_from n mi s)
unfolding topics_from
topics_from-ends n [] s o = (s, refl, Retopics-refl s.hash)
topics_from-ends n (id ∷ mi) s o = elim (Option-cases (Dict.get s.hash id)) [
  | inl e ↦ rw (topics_from, e) (topics_from-ends n mi s o)
  | inr (m, e) ↦
      let t = topic_of-ends n m s id o e in
      let rest = topics_from-ends n mi t.0 (IsOrderly-Retopics n s.hash t.0.hash t.2 o) in
      (
        rest.0,
        rw (topics_from, e, t.1) rest.1,
        Retopics-trans s.hash t.0.hash rest.0.hash t.2 rest.2,
      )
]

-- GetTopics returns, where the fuel is above the number of every entry and every entry has a greater
-- number than the entry that it replies to, if that one shows; and it changes nothing of the index
-- but topics.
pub get_topics-ends :
    (n : ℕ) (mi : List Bytes) (hash : Hash)
    → IsOrderly n hash
    → (t : Topics) × (get_topics n mi hash ≡ some t) × Retopics hash t.hash
unfolding get_topics
get_topics-ends n mi hash o =
    topics_from-ends n mi (record { topics = []; intopic = []; hash = hash }) o
