-- ===== src/Node/Routes.antt =====
-- ii-node/web.go: which handler _handleWWW calls for a path, and with which arguments (parseQueryArgs).
pub mod Queries
mod Tests
use ii_go.Base.{
  if◌then◌else◌, Bytes, codes, str_eq, ℤ, pos, negsuc, ◌/◌, Bool, true, false, ◌||◌, not, Option,
  none, some, List, [], ◌∷◌,
}
use ii_go.Strings.{split, trim_prefix}
use ii_go.Decimal.{scan_int64}
use ii_go.Msg.Valid.{is_msg_id, is_echo}
use ii_go.Db.State.{Exec, ◌>>=◌, ◌>>◌, pure}
use ii_go.Db.Access.{lookup, blacklist}
use ii_go.Db.Query.{Query}
use ii_go.Node.Points.{any_query}

-- ctx.Selected, page and rss.
pub record QueryArgs : Type 0 where
  pub page : ℤ
  pub rss : Bool
  pub selected : Bytes

pub data Route : Type 0 where
  index login logout profile register reset wrong_request not_found : Route
  points : List Bytes → Route
  avatar : Bytes → Route
  reply : Bytes → Bool → Route
  edit : Bytes → Route
  hide : Bytes → Route
  attached_file : Bytes → Route
  topic : Bytes → ℤ → Route
  new_msg : Bytes → Route
  query : Query → Bytes → QueryArgs → Route
  topics : Bytes → ℤ → Route

-- fmt.Sscanf("%d") into a variable that has a value.
unfoldable pub page_or : ℤ → Bytes → ℤ
page_or page s = elim (scan_int64 s) [ none ↦ page | some n ↦ n ]

-- parseQueryArgs
unfoldable pub query_args : List Bytes → Option QueryArgs
query_args (a ∷ b ∷ c ∷ rest) = some (
    if str_eq c (codes "rss")
    then record { page = pos 0; rss = true; selected = [] }
    else if is_msg_id c
    then record { page = pos 0; rss = false; selected = c }
    else record { page = page_or (pos 0) c; rss = false; selected = [] })
query_args (a ∷ b ∷ []) =
    some (record { page = pos 0; rss = false; selected = if is_msg_id b then b else [] })
query_args _ = none

-- Without the prefix of the blog or of the forum, if something follows it.
unfoldable pub without_pfx : List Bytes → List Bytes
without_pfx (a ∷ b ∷ args) =
    if str_eq a (codes "blog") || str_eq a (codes "forum") then b ∷ args else a ∷ b ∷ args
without_pfx args = args

unfoldable pub url_args : Bytes → List Bytes
url_args path = without_pfx (split (trim_prefix path (codes "/")) b'/')

unfoldable pub is_new_reply : List Bytes → Bool
is_new_reply [] = false
is_new_reply (a ∷ args) = str_eq a (codes "new")

-- The paths that begin with the id of a message.
unfoldable pub msg_route : Bytes → List Bytes → Route
msg_route id [] = topic id (pos 0)
msg_route id (a ∷ args) =
    if str_eq a (codes "reply")
    then reply id (not (is_new_reply args))
    else if str_eq a (codes "edit")
    then edit id
    else if str_eq a (codes "blacklist")
    then hide id
    else if str_eq a (codes "base64")
    then attached_file id
    else topic id (page_or (pos 0) a)

-- The paths that begin with the name of an area.
unfoldable pub echo_route : Bytes → List Bytes → Route
echo_route e [] = topics e (pos 1)
echo_route e (a ∷ args) = if str_eq a (codes "new") then new_msg e else topics e (page_or (pos 1) a)

unfoldable pub avatar_route : List Bytes → Route
avatar_route [] = wrong_request
avatar_route (user ∷ args) = avatar user

unfoldable pub query_route : (Bytes → Query) → List Bytes → Route
query_route q args = elim (query_args args) [
  | none ↦ wrong_request
  | some a ↦ elim args [ _ ∷ b ∷ _ ↦ query (q b) b a | _ ↦ wrong_request ]
]

module _ (sha256 : Bytes → Bytes) where
  unfoldable pub all_msgs : Query
  all_msgs = record any_query { start = negsuc 49 }

  -- The query of echo/ and of echo+topics/ on an area, on a message, which stands for its area, on "all",
  -- and on anything else.
  unfoldable pub area_query : Bytes → Exec Query
  area_query b =
      if is_echo b
      then pure (record any_query { echo = b })
      else if is_msg_id b
      then (do
        mi ← lookup sha256 b
        pure (elim mi [ none ↦ all_msgs | some i ↦ record any_query { echo = i.echo } ]))
      else if str_eq b (codes "all")
      then pure all_msgs
      else pure any_query

  unfoldable pub area_route : Bool → List Bytes → Exec Route
  area_route heads args = elim (query_args args) [
    | none ↦ pure wrong_request
    | some a ↦ elim args [
      | _ ∷ b ∷ _ ↦ (do
        q ← area_query b
        pure (query (if heads then record q { repto = codes "!" } else q) b a))
      | _ ↦ pure wrong_request
    ]
  ]

  -- The chain of tests of _handleWWW on the parts of the path.
  unfoldable pub route : List Bytes → Exec Route
  route [] = pure not_found
  route (a ∷ args) =
      if str_eq a []
      then pure index
      else if str_eq a (codes "login")
      then pure login
      else if str_eq a (codes "logout")
      then pure logout
      else if str_eq a (codes "points")
      then pure (points (a ∷ args))
      else if str_eq a (codes "profile")
      then pure profile
      else if str_eq a (codes "register")
      then pure register
      else if str_eq a (codes "reset")
      then pure reset
      else if str_eq a (codes "avatar")
      then pure (avatar_route args)
      else if is_msg_id a
      then pure (msg_route a args)
      else if str_eq a (codes "new")
      then pure (new_msg [])
      else if str_eq a (codes "to")
      then pure (query_route (λ b. record any_query { to = b }) (a ∷ args))
      else if str_eq a (codes "from")
      then pure (query_route (λ b. record any_query { from = b }) (a ∷ args))
      else if str_eq a (codes "echo")
      then area_route false (a ∷ args)
      else if str_eq a (codes "echo+topics")
      then area_route true (a ∷ args)
      else if is_echo a
      then pure (echo_route a args)
      else pure not_found
