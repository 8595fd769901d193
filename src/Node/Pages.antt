-- ===== src/Node/Pages.antt =====
-- ii-node/web.go: the pages of messages (www_query, www_topics, www_topic, www_reply and www_edit on GET).
-- A page is what its template is given; the text of an RSS feed is left out.
pub mod Readable
pub mod Threads
pub mod Forms
mod Tests
use ii_go.Base.{
  ltb, if◌then◌else◌, length, drop, Bytes, str_eq, ℤ, pos, negsuc, is_neg, same_int, ℕ, zero, suc,
  ◌+◌, ◌-◌, ◌/◌, Bool, Option, none, some, List, [], ◌∷◌, map,
}
use ii_go.Dict
use ii_go.Msg.Encode.{Msg}
use ii_go.Db.Index.{MsgInfo}
use ii_go.Db.State.{Exec, ◌>>=◌, ◌>>◌, pure}
use ii_go.Db.Access.{lookup_ids, get_fast}
use ii_go.Db.Query.{Query, ids}
use ii_go.Db.Select.{select_ids}
use ii_go.Users.{User}
use ii_go.Node.Pager.{page_size, Pages, make_pager}

-- The messages of a page, and its links to others.
pub record MsgPage : Type 0 where
  pub pager : Pages
  pub selected : Bytes
  pub msgs : List Msg

-- sort.SliceStable by the number, the greatest first.
unfoldable pub insert_newest : MsgInfo → List MsgInfo → List MsgInfo
insert_newest i [] = i ∷ []
insert_newest i (j ∷ l) =
    let rest = insert_newest i l in if ltb i.num j.num then j ∷ rest else i ∷ j ∷ l

unfoldable pub newest_first : List MsgInfo → List MsgInfo
newest_first [] = []
newest_first (i ∷ l) = insert_newest i (newest_first l)

-- The place of an id, `none` if it is not there.
unfoldable pub place : Bytes → List Bytes → Option ℕ
place id [] = none
place id (j ∷ l) = elim (place id l) [
  | none ↦ if str_eq j id then some 0 else none
  | some k ↦ if str_eq j id then some 0 else some (suc k)
]

-- The page of the selected message, else the last page, unless a page was asked for.
unfoldable pub query_page : ℤ → Bytes → List MsgInfo → ℤ
query_page page selected mis =
    if same_int page (pos 0)
    then elim (place selected (map (λ (i : MsgInfo). i.id) mis)) [
      | some k ↦ pos (k / page_size + 1)
      | none ↦ pos ((length mis - 1) / page_size + 1)
    ]
    else page

module _ (sha256 : Bytes → Bytes) (u : User) where
  -- The loops over the messages from the page's offset on: at most `nr`, those that cannot be read left out.
  unfoldable pub gather : (Bytes → Exec (Option Msg)) → ℕ → List Bytes → Exec (List Msg)
  gather read nr [] = pure []
  gather read zero (id ∷ ids) = pure []
  gather read (suc nr) (id ∷ ids) = do
    o ← read id
    elim o [
      | none ↦ gather read (suc nr) ids
      | some m ↦ (do rest ← gather read nr ids; pure (m ∷ rest))
    ]

  -- Select
  unfoldable pub select : Query → Exec (List Bytes)
  select q = select_ids sha256 none (record q { user = u.name })

  unfoldable pub query_infos : Query → List MsgInfo → List MsgInfo
  query_infos q mis = if is_neg q.start then newest_first mis else mis

  unfoldable pub show_query : Query → ℤ → Bytes → List MsgInfo → Exec MsgPage
  show_query q page selected mis = do
    let infos = query_infos q mis
    let p = make_pager (length mis) (query_page page selected infos)
    msgs ← gather (get_fast sha256) page_size (drop p.start (map (λ (i : MsgInfo). i.id) infos))
    pure (record { pager = p; selected = selected; msgs = msgs })

  unfoldable pub feed : Bool → Query → Query
  feed rss q = if rss then record q { start = negsuc 49 } else q

  -- www_query
  unfoldable pub www_query : Query → ℤ → Bool → Bytes → Exec MsgPage
  www_query q page rss selected = do
    ids ← select (feed rss q)
    mis ← lookup_ids sha256 ids
    show_query (feed rss q) page selected mis
