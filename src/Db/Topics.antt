-- ===== src/Db/Topics.antt =====
-- ii/db.go: GetTopics, behind its LoadIndex. The entries that it gets are those of the index, so that
-- an entry is named by its id, and its Topic is read and written in the index. The walk to the parents
-- is on fuel, and `none` is a walk that has not ended with it.
pub mod Ends
pub mod Loops
pub mod Marks
use mathlib.Core.Option
use ii_go.Base.{
  ltb, if◌then◌else◌, Bytes, codes, str_eq, ℕ, zero, suc, Bool, true, false, ◌||◌, not, Option,
  none, some, List, [], ◌∷◌, ◌++◌,
}
use ii_go.Dict
use ii_go.Db.Index.{MsgInfo}
use ii_go.Db.Access.{visible}

abbrev pub Hash : Type 0
Hash = List (Bytes × MsgInfo)

abbrev pub visited : Bytes
visited = codes "visited"

-- `p.Topic = t`
unfoldable pub set_topic : Hash → Bytes → Bytes → Hash
set_topic hash id t = elim (Dict.get hash id) [
  | none ↦ hash
  | some i ↦ Dict.put hash id (record i { topic = t })
]

-- LookupFast(id, false)
unfoldable pub parent_of : Hash → Bytes → Option MsgInfo
parent_of hash id = if str_eq id [] then none else visible false (Dict.get hash id)

-- What a step of the walk does at an entry: it ends, or goes on.
unfoldable pub stops : MsgInfo → Bool
stops p = str_eq p.repto p.id || str_eq p.topic visited

unfoldable pub mark_visited : Hash → MsgInfo → Hash
mark_visited hash p = if str_eq p.topic [] then set_topic hash p.id visited else hash

-- The loop over the parents of a message of an area: the index after it, and the ids of the entries
-- of that area.
unfoldable pub walk : ℕ → Bytes → Hash → List Bytes → Option MsgInfo → Option (Hash × List Bytes)
walk fuel echo hash l none = some (hash, l)
walk zero echo hash l (some p) = none
walk (suc fuel) echo hash l (some p) =
    let marked = mark_visited hash p in
    let other = walk fuel echo hash l (parent_of hash p.repto) in
    let mine = walk fuel echo marked (l ++ p.id ∷ []) (parent_of marked p.repto) in
    if stops p then some (set_topic hash p.id [], l) else if str_eq echo p.echo then mine else other

-- sort.SliceStable by Num
abbrev num_of : Hash → Bytes → ℕ
num_of hash id = elim (Dict.get hash id) [ none ↦ 0 | some i ↦ i.num ]

unfoldable pub insert_by_num : Hash → Bytes → List Bytes → List Bytes
insert_by_num hash id [] = id ∷ []
insert_by_num hash id (j ∷ l) =
    let rest = insert_by_num hash id l in
    if ltb (num_of hash j) (num_of hash id) then j ∷ rest else id ∷ j ∷ l

unfoldable pub sort_by_num : Hash → List Bytes → List Bytes
sort_by_num hash [] = []
sort_by_num hash (id ∷ l) = insert_by_num hash id (sort_by_num hash l)

-- The maps `topics` and `intopic`, and the index.
pub record Topics : Type 0 where
  pub topics : List (Bytes × List Bytes)
  pub intopic : List (Bytes × Bytes)
  pub hash : Hash

abbrev pub list_or_empty : Option (List Bytes) → List Bytes
list_or_empty none = []
list_or_empty (some l) = l

-- `topics[t] = append(topics[t], id)`
unfoldable pub append_to : List (Bytes × List Bytes) → Bytes → Bytes → List (Bytes × List Bytes)
append_to topics t id = Dict.put topics t (list_or_empty (Dict.get topics t) ++ id ∷ [])

-- `if len(topics[t]) == 0 { … }`: a topic begins with its own id.
unfoldable pub open_topic : List (Bytes × List Bytes) → Bytes → List (Bytes × List Bytes)
open_topic topics t = elim (list_or_empty (Dict.get topics t)) [
  | [] ↦ append_to topics t t
  | ◌∷◌ x xs ↦ topics
]

abbrev pub is_in : List (Bytes × Bytes) → Bytes → Bool
is_in intopic id = elim (Dict.get intopic id) [ none ↦ false | some t ↦ true ]

-- The loop over the sorted entries of a walk, whose topic is t.
unfoldable pub assign : Bytes → List Bytes → Topics → Topics
assign t [] s = s
assign t (id ∷ l) s = assign t l (
    if str_eq id t
    then record s { hash = set_topic s.hash id t }
    else if is_in s.intopic id
    then s
    else record {
      topics = append_to s.topics t id;
      intopic = Dict.put s.intopic id t;
      hash = set_topic s.hash id t;
    })

-- The message of the walk that is farthest from its start is the topic.
abbrev pub last_of : List Bytes → Bytes
last_of [] = []
last_of (x ∷ []) = x
last_of (x ∷ y ∷ l) = last_of (y ∷ l)

unfoldable pub walked : Topics → Hash × List Bytes → Topics
walked s (hash, []) = record s { hash = hash }
walked s (hash, x ∷ l) =
    let t = last_of (x ∷ l) in
    assign t (sort_by_num hash (x ∷ l))
      (record { topics = open_topic s.topics t; intopic = s.intopic; hash = hash })

-- The fast path, for a message whose topic is known.
unfoldable pub known_topic : MsgInfo → Topics → Topics
known_topic m s =
    let topics = open_topic s.topics m.topic in
    if str_eq m.id m.topic then record s { topics = topics } else record s {
      topics = append_to topics m.topic m.id;
      intopic = Dict.put s.intopic m.id m.topic;
    }

-- One message of the list.
unfoldable pub topic_of : ℕ → MsgInfo → Topics → Option Topics
topic_of fuel m s =
    if is_in s.intopic m.id
    then some s
    else if not (str_eq m.topic [])
    then some (known_topic m s)
    else Option.map (walked s) (walk fuel m.echo s.hash [] (some m))

unfoldable pub topics_from : ℕ → List Bytes → Topics → Option Topics
topics_from fuel [] s = some s
topics_from fuel (id ∷ l) s = elim (Dict.get s.hash id) [
  | none ↦ topics_from fuel l s
  | some m ↦ elim (topic_of fuel m s) [ none ↦ none | some t ↦ topics_from fuel l t ]
]

-- GetTopics
unfoldable pub get_topics : ℕ → List Bytes → Hash → Option Topics
get_topics fuel mi hash = topics_from fuel mi (record { topics = []; intopic = []; hash = hash })
