-- ===== src/Node/Routes/Queries.antt =====
-- ii-node/web.go: what the paths of queries show, from the path to the page.
use mathlib.Core.Path.{subst}
use ii_go.Base.{
  if◌then◌else◌, length, All, Bytes, codes, str_eq, pos, ok, ◌≤◌, ◌≡◌, refl, Bool, true, false,
  Option, none, some, List, [], ◌∷◌,
}
use ii_go.Msg.Valid.{is_msg_id, is_echo}
use ii_go.Msg.Encode.{Msg}
use ii_go.Db.Index.{MsgInfo}
use ii_go.Db.State.{Db, Exec, ◌>>=◌, pure}
use ii_go.Db.State.Ends.{Ends, Ends-pure, Ends-bind, Ends-if}
use ii_go.Db.Access.{lookup}
use ii_go.Db.Query.{Query}
use ii_go.Db.Log.Keeps.{Synced, Ends-lookup_with}
use ii_go.Users.{User}
use ii_go.Node.Pager.{page_size}
use ii_go.Node.Points.{any_query}
use ii_go.Node.Handlers.Lists.{IsOpenQuery}
use ii_go.Node.Pages.{MsgPage, www_query}
use ii_go.Node.Pages.Readable.{IsShownTo, www_query-IsShownTo}
use ii_go.Node.Routes.{
  QueryArgs, Route, index, login, logout, profile, register, reset, wrong_request, not_found,
  points, attached_file, topic, new_msg, query, topics, page_or, query_args, url_args, msg_route,
  echo_route, avatar_route, query_route, all_msgs, area_query, area_route, route,
}

-- The query of a route, if it has one, asks for messages that show and may be read.
abbrev IsOpenRoute : Route → Type 0
IsOpenRoute (query q b a) = IsOpenQuery q
IsOpenRoute r = Unit

area_open : (e : Bytes) → IsOpenQuery (record any_query { echo = e })
area_open e = record {
  access_asked = refl;
  no_blacklist = refl;
  not_inverted = refl;
  no_skip = refl;
  no_count = refl;
}

either : (b : Bool) (r s : Route) → IsOpenRoute r → IsOpenRoute s → IsOpenRoute (if b then r else s)
either true r s h k = h
either false r s h k = k

to_open : (b : Bytes) → IsOpenQuery (record any_query { to = b })
to_open b = record {
  access_asked = refl;
  no_blacklist = refl;
  not_inverted = refl;
  no_skip = refl;
  no_count = refl;
}

from_open : (b : Bytes) → IsOpenQuery (record any_query { from = b })
from_open b = record {
  access_asked = refl;
  no_blacklist = refl;
  not_inverted = refl;
  no_skip = refl;
  no_count = refl;
}

msg_route-IsOpenRoute : (id : Bytes) (args : List Bytes) → IsOpenRoute (msg_route id args)
unfolding msg_route
msg_route-IsOpenRoute id [] = tt
msg_route-IsOpenRoute id (a ∷ args) = either (str_eq a (codes "reply")) _ _ tt (
    either (str_eq a (codes "edit")) _ _ tt (
      either (str_eq a (codes "blacklist")) _ _ tt (
        either (str_eq a (codes "base64")) (attached_file id) (topic id (page_or (pos 0) a)) tt
          tt)))

echo_route-IsOpenRoute : (e : Bytes) (args : List Bytes) → IsOpenRoute (echo_route e args)
unfolding echo_route
echo_route-IsOpenRoute e [] = tt
echo_route-IsOpenRoute e (a ∷ args) =
    either (str_eq a (codes "new")) (new_msg e) (topics e (page_or (pos 1) a)) tt tt

avatar_route-IsOpenRoute : (args : List Bytes) → IsOpenRoute (avatar_route args)
unfolding avatar_route
avatar_route-IsOpenRoute [] = tt
avatar_route-IsOpenRoute (a ∷ args) = tt

query_route-IsOpenRoute :
    (q : Bytes → Query) (args : List Bytes)
    → ((b : Bytes) → IsOpenQuery (q b))
    → IsOpenRoute (query_route q args)
unfolding query_route query_args
query_route-IsOpenRoute q [] h = tt
query_route-IsOpenRoute q (a ∷ []) h = tt
query_route-IsOpenRoute q (a ∷ b ∷ []) h = h b
query_route-IsOpenRoute q (a ∷ b ∷ c ∷ rest) h = h b

heads_open :
    (heads : Bool) (q : Query)
    → IsOpenQuery q
    → IsOpenQuery (if heads then record q { repto = codes "!" } else q)
heads_open false q o = o
heads_open true q o = record {
  access_asked = o.access_asked;
  no_blacklist = o.no_blacklist;
  not_inverted = o.not_inverted;
  no_skip = o.no_skip;
  no_count = o.no_count;
}

module _ (sha256 : Bytes → Bytes) (log : List Msg) (name : Bytes) where
  all_open : IsOpenQuery (all_msgs sha256)
  unfolding all_msgs
  all_open = record {
    access_asked = refl;
    no_blacklist = refl;
    not_inverted = refl;
    no_skip = refl;
    no_count = refl;
  }

  of_msg :
      (mi : Option MsgInfo)
      → IsOpenQuery
          (elim mi [ none ↦ all_msgs sha256 | some i ↦ record any_query { echo = i.echo } ])
  of_msg none = all_open
  of_msg (some i) = area_open i.echo

  Ends-area_query :
      (b : Bytes)
      → Ends (Synced log name) (area_query sha256 b) (λ q db. Synced log name db × IsOpenQuery q)
  unfolding area_query lookup
  Ends-area_query b =
      Ends-if _ _ (is_echo b) _ _ (λ e. Ends-pure _ _ _ (λ db s. (s, area_open b)))
        (λ e.
          Ends-if _ _ (is_msg_id b) _ _
            (λ f.
              Ends-bind (Synced log name) _ _ _ _ (Ends-lookup_with sha256 log name b false)
                (λ mi. Ends-pure _ _ _ (λ db (s, found). (s, of_msg mi))))
            (λ f.
              Ends-if _ _ (str_eq b (codes "all")) _ _
                (λ g. Ends-pure _ _ _ (λ db s. (s, all_open)))
                (λ g. Ends-pure _ _ _ (λ db s. (s, area_open [])))))

  abbrev Routed : Route → Db → Type 0
  Routed r db = Synced log name db × IsOpenRoute r

  Ends-found_route : (r : Route) → IsOpenRoute r → Ends (Synced log name) (pure r) Routed
  Ends-found_route r h = Ends-pure _ _ r (λ db s. (s, h))

  Ends-asked :
      (heads : Bool) (b : Bytes) (a : QueryArgs)
      → Ends
          (Synced log name)
          (area_query sha256 b >>= λ q.
            pure (query (if heads then record q { repto = codes "!" } else q) b a))
          Routed
  Ends-asked heads b a =
      Ends-bind (Synced log name) _ _ _ _ (Ends-area_query b)
        (λ q. Ends-pure _ _ _ (λ db (s, o). (s, heads_open heads q o)))

  Ends-area_route :
      (heads : Bool) (args : List Bytes)
      → Ends (Synced log name) (area_route sha256 heads args) Routed
  unfolding area_route query_args
  Ends-area_route heads [] = Ends-found_route wrong_request tt
  Ends-area_route heads (a ∷ []) = Ends-found_route wrong_request tt
  Ends-area_route heads (a ∷ b ∷ []) = Ends-asked heads b _
  Ends-area_route heads (a ∷ b ∷ c ∷ rest) = Ends-asked heads b _

  Ends-or :
      (b : Bool) (m n : Exec Route)
      → Ends (Synced log name) m Routed
      → Ends (Synced log name) n Routed
      → Ends (Synced log name) (if b then m else n) Routed
  Ends-or b m n h k = Ends-if _ _ b m n (λ e. h) (λ e. k)

  Ends-route : (args : List Bytes) → Ends (Synced log name) (route sha256 args) Routed
  unfolding route
  Ends-route [] = Ends-found_route not_found tt
  Ends-route (a ∷ args) = Ends-or _ _ _ (Ends-found_route index tt) (
      Ends-or _ _ _ (Ends-found_route login tt) (
        Ends-or _ _ _ (Ends-found_route logout tt) (
          Ends-or _ _ _ (Ends-found_route (points (a ∷ args)) tt) (
            Ends-or _ _ _ (Ends-found_route profile tt) (
              Ends-or _ _ _ (Ends-found_route register tt) (
                Ends-or _ _ _ (Ends-found_route reset tt) (
                  Ends-or _ _ _
                    (Ends-found_route (avatar_route args) (avatar_route-IsOpenRoute args))
                    (Ends-or _ _ _
                      (Ends-found_route (msg_route a args) (msg_route-IsOpenRoute a args))
                      (Ends-or _ _ _ (Ends-found_route (new_msg []) tt) (
                        Ends-or _ _ _
                          (Ends-found_route _ (query_route-IsOpenRoute _ (a ∷ args) to_open))
                          (Ends-or _ _ _
                            (Ends-found_route _ (query_route-IsOpenRoute _ (a ∷ args) from_open))
                            (Ends-or _ _ _ (Ends-area_route false (a ∷ args)) (
                              Ends-or _ _ _ (Ends-area_route true (a ∷ args)) (
                                Ends-or _ _ _
                                  (Ends-found_route (echo_route a args)
                                    (echo_route-IsOpenRoute a args))
                                  (Ends-found_route not_found tt)))))))))))))))

  -- Where the path leads to www_query, on files that hold a log, the page is made without a fault and the log
  -- is left; it shows no more than 50 messages, each of them the last one with its id, not hidden
  -- (blacklisted, and not at offset 0 of the bundle file), and one that the user may read.
  pub route-IsShownTo :
      (u : User) (path : Bytes) (db : Db) (q : Query) (b : Bytes) (a : QueryArgs)
      → Synced log name db
      → (route sha256 (url_args path) db).0 ≡ ok (query q b a)
      → (p : MsgPage) × ((www_query sha256 u q a.page a.rss a.selected
            (route sha256 (url_args path) db).1).0
          ≡ ok p)
        × Synced log name
            (www_query sha256 u q a.page a.rss a.selected (route sha256 (url_args path) db).1).1
        × (length p.msgs ≤ page_size)
        × All (IsShownTo sha256 log name u) p.msgs
  route-IsShownTo u path db q b a s found =
      let (r, e, (kept, o)) = (Ends-route (url_args path)).at db s in
      let same : r ≡ query q b a = cc (e, found) in
      www_query-IsShownTo sha256 log name u q a.page a.rss a.selected
        (route sha256 (url_args path) db).1 (subst IsOpenRoute same o) kept
