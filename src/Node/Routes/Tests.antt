-- ===== src/Node/Routes/Tests.antt =====
-- The theorem on the pages of queries at a concrete path.
use ii_go.Base.{length, All, Bytes, codes, str_eq, pos, ok, ◌≤◌, ◌≡◌, refl, false, [], ◌∷◌}
use ii_go.Strings.{split, has_prefix, trim_prefix}
use ii_go.Decimal.{scan_int64}
use ii_go.Msg.Valid.{is_msg_id}
use ii_go.Msg.Tests.{no_digest, sample}
use ii_go.Db.Query.{Query}
use ii_go.Db.Tests.{stored, stored-IsSynced}
use ii_go.Db.Log.Keeps.{Synced}
use ii_go.Node.Points.{any_query}
use ii_go.Node.Pager.{page_size}
use ii_go.Node.Pages.{MsgPage, www_query}
use ii_go.Node.Pages.Readable.{IsShownTo}
use ii_go.Node.Tests.{peter, stored_name}
use ii_go.Node.Routes.{
  QueryArgs, query, page_or, query_args, without_pfx, url_args, query_route, route,
}
use ii_go.Node.Routes.Queries.{route-IsShownTo}

abbrev path : Bytes
path = codes "/forum/from/Peter/2"

abbrev of_peter : Query
of_peter = record any_query { from = codes "Peter" }

abbrev args : QueryArgs
args = record { page = pos 2; rss = false; selected = [] }

routed : (route no_digest (url_args path) stored).0 ≡ ok (query of_peter (codes "Peter") args)
unfolding route url_args without_pfx split trim_prefix has_prefix str_eq query_route query_args
    is_msg_id page_or scan_int64
routed = refl

route-IsShownTo_example :
    (p : MsgPage) × ((www_query no_digest peter of_peter
        (pos 2)
        false
        []
        (route no_digest (url_args path) stored).1).0
      ≡ ok p)
    × Synced
        (sample ∷ [])
        (codes "node")
        (www_query no_digest peter of_peter
          (pos 2)
          false
          []
          (route no_digest (url_args path) stored).1).1
    × (length p.msgs ≤ page_size)
    × All (IsShownTo no_digest (sample ∷ []) (codes "node") peter) p.msgs
route-IsShownTo_example =
    route-IsShownTo no_digest (sample ∷ []) (codes "node") peter path stored of_peter
      (codes "Peter") args (stored-IsSynced, stored_name) routed
