-- ===== src/Node/Pages/Tests.antt =====
-- A run of GetTopics on the messages that a user may read: the topic begins with one that the user may not.
use mathlib.Core.Option
use ii_go.Base.{Bytes, codes, str_eq, pos, ℕ, ◌≡◌, refl, true, false, some, [], ◌∷◌}
use ii_go.Strings.{has_prefix}
use ii_go.Dict
use ii_go.Msg.Valid.{is_private}
use ii_go.Db.Index.{MsgInfo}
use ii_go.Db.Access.{visible}
use ii_go.Db.Query.{access}
use ii_go.Db.Topics.{
  Hash, set_topic, parent_of, stops, mark_visited, walk, insert_by_num, sort_by_num, Topics,
  append_to, open_topic, assign, walked, topic_of, topics_from, get_topics,
}

abbrev private : ℕ → Bytes → Bytes → Bytes → MsgInfo
private num id repto to = record {
  num = num;
  id = id;
  echo = codes ".private";
  to = to;
  off = pos num;
  repto = repto;
  from = codes "ann";
  topic = [];
}

abbrev hash : Hash
hash =
    (codes "one", private 1 (codes "one") [] (codes "bob"))
    ∷ (codes "two", private 2 (codes "two") (codes "one") (codes "eve"))
    ∷ []

hidden_parent :
    (access (private 1 (codes "one") [] (codes "bob")) (codes "eve") ≡ false)
    × (access (private 2 (codes "two") (codes "one") (codes "eve")) (codes "eve") ≡ true)
unfolding access is_private has_prefix str_eq
hidden_parent = (refl, refl)

shown_parent :
    Option.map
      (λ (t : Topics). Dict.get t.topics (codes "one"))
      (get_topics 3 (codes "two" ∷ []) hash)
    ≡ some (some (codes "one" ∷ codes "two" ∷ []))
unfolding get_topics topics_from topic_of walk stops mark_visited parent_of visible walked assign
    open_topic append_to sort_by_num insert_by_num set_topic Dict.get Dict.put str_eq
shown_parent = refl
