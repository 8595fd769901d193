-- ===== src/Node/Pages/Threads.antt =====
-- ii-node/web.go: the pages of topics (www_topics and www_topic). GetTopics is on fuel; `none` is a walk that
-- has not ended with it.
use ii_go.Base.{
  ltb, if◌then◌else◌, length, drop, Bytes, str_eq, ℤ, pos, same_int, Result, ok, ℕ, zero, suc, ◌+◌,
  ◌/◌, Bool, false, ◌&&◌, not, Option, none, some, List, [], ◌∷◌, map,
}
use ii_go.Dict
use ii_go.Msg.Encode.{Msg}
use ii_go.Db.Index.{MsgInfo}
use ii_go.Db.State.{Db, Panic, index_out_of_range, Exec, ◌>>=◌, pure, fault, gets}
use ii_go.Db.Load.{load_index}
use ii_go.Db.Access.{entries, lookup_fast, lookup, lookup_ids, get_msg, get_fast}
use ii_go.Db.Query.{access}
use ii_go.Db.Topics.{list_or_empty, last_of, get_topics}
use ii_go.Users.{User}
use ii_go.Node.Pager.{page_size, Pages, make_pager}
use ii_go.Node.Points.{any_query}
use ii_go.Node.Pages.{MsgPage, place, gather, select}

-- type Topic; `head` and `tail` are read when the topic stands on the page.
pub record Topic : Type 0 where
  pub ids : List Bytes
  pub last : MsgInfo

pub record ShownTopic : Type 0 where
  pub topic : Topic
  pub head : Msg
  pub tail : Msg

pub record TopicsPage : Type 0 where
  pub pager : Pages
  pub topics : List ShownTopic

pub data TopicPage : Type 0 where
  no_such denied endless : TopicPage
  shown : Bytes → MsgPage → TopicPage

unfoldable pub insert_latest : Topic → List Topic → List Topic
insert_latest t [] = t ∷ []
insert_latest t (v ∷ l) =
    let rest = insert_latest t l in if ltb t.last.num v.last.num then v ∷ rest else t ∷ v ∷ l

unfoldable pub latest_first : List Topic → List Topic
latest_first [] = []
latest_first (t ∷ l) = insert_latest t (latest_first l)

-- What a topic is sorted by: in a blog its first message, which must answer none, else its last one.
unfoldable pub last_info : Bool → List Bytes → Option MsgInfo → Option MsgInfo
last_info blog ids none = none
last_info blog ids (some i) = if blog && not (str_eq i.repto []) then none else some i

unfoldable pub and_topic : List Bytes → Option MsgInfo → List Topic → List Topic
and_topic ids none rest = rest
and_topic ids (some i) rest = record { ids = ids; last = i } ∷ rest

-- The page of a message in its topic, unless a page was asked for.
unfoldable pub topic_page : ℤ → Bytes → Bytes → List Bytes → ℤ
topic_page page id topic ids =
    if not (str_eq topic id) && same_int page (pos 0)
    then elim (place id ids) [ none ↦ page | some k ↦ pos (k / page_size + 1) ]
    else page

unfoldable pub topic_ids : Bytes → Option (List Bytes) → List Bytes
topic_ids id o = elim (list_or_empty o) [ [] ↦ id ∷ [] | x ∷ l ↦ x ∷ l ]

module _ (sha256 : Bytes → Bytes) (fuel : ℕ) (u : User) where
  -- GetTopics, which loads the index.
  unfoldable pub walk_topics :
      List Bytes → Db → Result Panic (Option (List (Bytes × List Bytes))) × Db
  walk_topics ids db = elim (get_topics fuel ids (entries db.idx.hash)) [
    | none ↦ (ok none, db)
    | some t ↦ (ok (some t.topics), record db { idx = record db.idx { hash = some t.hash } })
  ]

  unfoldable pub topics_of : List MsgInfo → Exec (Option (List (Bytes × List Bytes)))
  topics_of mis = do e ← load_index sha256; walk_topics (map (λ (i : MsgInfo). i.id) mis)

  -- The loop over the topics.
  unfoldable pub topic_infos : Bool → List (List Bytes) → Exec (List Topic)
  topic_infos blog [] = pure []
  topic_infos blog ([] ∷ topics) = fault index_out_of_range
  topic_infos blog ((t ∷ ids) ∷ topics) = do
    i ← lookup_fast sha256 (if blog then t else last_of (t ∷ ids)) false
    rest ← topic_infos blog topics
    pure (and_topic (t ∷ ids) (last_info blog (t ∷ ids) i) rest)

  unfoldable pub shown_topic : Topic → Option Msg → Option Msg → Option ShownTopic
  shown_topic t (some h) (some l) = some (record { topic = t; head = h; tail = l })
  shown_topic t _ _ = none

  unfoldable pub first_of : List Bytes → Bytes
  first_of [] = []
  first_of (x ∷ l) = x

  unfoldable pub gather_topics : ℕ → List Topic → Exec (List ShownTopic)
  gather_topics nr [] = pure []
  gather_topics zero (t ∷ l) = pure []
  gather_topics (suc nr) (t ∷ l) = do
    head ← get_fast sha256 (first_of t.ids)
    tail ← get_fast sha256 (last_of t.ids)
    elim (shown_topic t head tail) [
      | none ↦ gather_topics (suc nr) l
      | some s ↦ (do rest ← gather_topics nr l; pure (s ∷ rest))
    ]

  unfoldable pub show_topics :
      Bool → ℤ → Option (List (Bytes × List Bytes)) → Exec (Option TopicsPage)
  show_topics blog page none = pure none
  show_topics blog page (some topics) = do
    e ← load_index sha256
    infos ← topic_infos blog (map (λ (t : Bytes × List Bytes). t.1) topics)
    let p = make_pager (length infos) page
    found ← gather_topics page_size (drop p.start (latest_first infos))
    pure (some (record { pager = p; topics = found }))

  -- www_topics; `blog` tells whether the path has the prefix /blog.
  unfoldable pub www_topics : Bool → Bytes → ℤ → Exec (Option TopicsPage)
  www_topics blog echo page = do
    ids ← select sha256 u (record any_query { echo = echo })
    mis ← lookup_ids sha256 ids
    topics ← topics_of mis
    show_topics blog page topics

  unfoldable pub topic_in : Bytes → Db → Bytes
  topic_in id db = elim (Dict.get (entries db.idx.hash) id) [ none ↦ [] | some i ↦ i.topic ]

  unfoldable pub show_topic :
      ℤ → Bytes → Bytes → Option (List (Bytes × List Bytes)) → Exec TopicPage
  show_topic page id topic none = pure endless
  show_topic page id topic (some topics) = do
    let ids = topic_ids id (Dict.get topics topic)
    let p =
        make_pager (length ids) (topic_page page id topic (list_or_empty (Dict.get topics topic)))
    msgs ← gather sha256 u (get_msg sha256) page_size (drop p.start ids)
    pure (
        shown topic
          (record { pager = p; selected = if same_int page (pos 0) then id else []; msgs = msgs }))

  unfoldable pub found_topic : Bytes → ℤ → Option MsgInfo → Exec TopicPage
  found_topic id page none = pure no_such
  found_topic id page (some mi) = if not (access mi u.name) then pure denied else (do
    ids ← select sha256 u (record any_query { echo = mi.echo })
    mis ← lookup_ids sha256 ids
    topics ← topics_of mis
    topic ← gets (topic_in mi.id)
    show_topic page id topic topics)

  -- www_topic
  unfoldable pub www_topic : Bytes → ℤ → Exec TopicPage
  www_topic id page = do mi ← lookup sha256 id; found_topic id page mi
