-- ===== src/Node/Pages/Readable.antt =====
-- ii-node/web.go: what www_query puts on a page of files that hold a log.
use mathlib.Core.Option
use mathlib.Core.Path.{subst}
use ii_go.Base.{
  ltb, Bool-cases, length, All, Bytes, ℤ, is_neg, ok, ℕ, zero, suc, ◌≤◌, ◌≡◌, ap, ◌∙◌, inl, inr,
  Bool, true, false, Option, none, some, List, [], ◌∷◌, map, arith,
}
use ii_go.Msg.Encode.{Msg}
use ii_go.Db.Index.{MsgInfo}
use ii_go.Db.State.{Db, ◌>>=◌, pure}
use ii_go.Db.State.Ends.{Ends, Ends-pure, Ends-bind, Ends-weaken, Ends-imp, Ends-given}
use ii_go.Db.Access.{get_fast}
use ii_go.Db.Query.{Query, ids}
use ii_go.Db.Query.Selected.{All-drop}
use ii_go.Db.Log.{latest}
use ii_go.Db.Log.Get.{shows, msg_at}
use ii_go.Db.Log.Keeps.{Synced, Current}
use ii_go.Db.Log.Rows.{Ends-select-Current}
use ii_go.Db.Log.Fast.{Ends-get_fast, Ends-lookup_infos}
use ii_go.Users.{User}
use ii_go.Node.Pager.{page_size, make_pager}
use ii_go.Node.Handlers.Bundles.{readable}
use ii_go.Node.Handlers.Lists.{IsOpenQuery, IsReadable, selected-IsReadable}
use ii_go.Node.Pages.{
  MsgPage, insert_newest, newest_first, query_page, gather, select, query_infos, show_query, feed,
  www_query,
}

module _ (P : Bytes → Type 0) where
  abbrev Infos : List MsgInfo → Type 0
  Infos = All (λ (i : MsgInfo). P i.id)

  insert_newest-All :
      (i : MsgInfo) (l : List MsgInfo) → P i.id → Infos l → Infos (insert_newest i l)
  unfolding insert_newest
  insert_newest-All i [] p h = (p, tt)
  insert_newest-All i (j ∷ l) p h = elim (Bool-cases (ltb i.num j.num)) [
    | inl e ↦ rw e (h.0, insert_newest-All i l p (h.1))
    | inr e ↦ rw e (p, h)
  ]

  newest_first-All : (l : List MsgInfo) → Infos l → Infos (newest_first l)
  unfolding newest_first
  newest_first-All [] h = tt
  newest_first-All (i ∷ l) h = insert_newest-All i (newest_first l) (h.0) (newest_first-All l (h.1))

  query_infos-All :
      (sha256 : Bytes → Bytes) (u : User) (q : Query) (l : List MsgInfo)
      → Infos l
      → Infos (query_infos sha256 u q l)
  unfolding query_infos
  query_infos-All sha256 u q l h = elim (Bool-cases (is_neg q.start)) [
    | inl e ↦ rw (query_infos, e) (newest_first-All l h)
    | inr e ↦ rw (query_infos, e) h
  ]

  infos-ids : (l : List MsgInfo) → Infos l → All P (map (λ (i : MsgInfo). i.id) l)
  infos-ids [] h = tt
  infos-ids (i ∷ l) h = (h.0, infos-ids l (h.1))

module _ (sha256 : Bytes → Bytes) (log : List Msg) (name : Bytes) (u : User) where
  -- A message of the log that is shown and that the user may read.
  abbrev pub IsShownTo : Msg → Type 0
  IsShownTo m =
      (id : Bytes) × (o : ℕ) × (shows false (latest id 0 log) ≡ some (o, m))
      × (readable u.name m ≡ true)

  abbrev Gathered : ℕ → List Msg → Db → Type 0
  Gathered nr l db = Current log name db × (length l ≤ nr) × All IsShownTo l

  same_msg :
      (id : Bytes) (m : Msg)
      → IsReadable sha256 log name u.name id
      → some m ≡ Option.map msg_at (shows false (latest id 0 log))
      → IsShownTo m
  same_msg id m (o, m', e, r) h =
      let same : some m ≡ some m' = h ∙ ap (Option.map msg_at) e in
      let is : m' ≡ m = cc same in
      (id, o, e ∙ ap (λ x. some (o, x)) is, subst (λ x. readable u.name x ≡ true) is r)

  gathered :
      (nr : ℕ) (id : Bytes) (ids : List Bytes) (o : Option Msg)
      → IsReadable sha256 log name u.name id
      → Ends (Current log name) (gather sha256 u (get_fast sha256) (suc nr) ids) (Gathered (suc nr))
      → Ends (Current log name) (gather sha256 u (get_fast sha256) nr ids) (Gathered nr)
      → Ends
          (λ db. Current log name db × (o ≡ Option.map msg_at (shows false (latest id 0 log))))
          (elim o [
            | none ↦ gather sha256 u (get_fast sha256) (suc nr) ids
            | some m ↦ (do rest ← gather sha256 u (get_fast sha256) nr ids; pure (m ∷ rest))
          ])
          (Gathered (suc nr))
  gathered nr id ids none h more fewer = Ends-weaken (λ db c. c.0) more
  gathered nr id ids (some m) h more fewer = Ends-given _ (λ e.
      Ends-bind (Current log name) _ _ _ _ fewer (λ rest.
        Ends-pure _ _ (m ∷ rest) (λ db (c, n, all). (c, omega arith, (same_msg id m h e, all)))))

  Ends-gather :
      (nr : ℕ) (ids : List Bytes)
      → All (IsReadable sha256 log name u.name) ids
      → Ends (Current log name) (gather sha256 u (get_fast sha256) nr ids) (Gathered nr)
  unfolding gather
  Ends-gather nr [] h = Ends-pure _ _ [] (λ db c. (c, omega arith, tt))
  Ends-gather zero (id ∷ ids) h = Ends-pure _ _ [] (λ db c. (c, omega arith, tt))
  Ends-gather (suc nr) (id ∷ ids) h =
      Ends-bind (Current log name) _ _ _ _ (Ends-get_fast sha256 log name id) (λ o.
        gathered nr id ids o (h.0) (Ends-gather (suc nr) ids (h.1)) (Ends-gather nr ids (h.1)))

  opened : (q : Query) → IsOpenQuery q → IsOpenQuery (record q { user = u.name })
  opened q o = record {
    access_asked = o.access_asked;
    no_blacklist = o.no_blacklist;
    not_inverted = o.not_inverted;
    no_skip = o.no_skip;
    no_count = o.no_count;
  }

  Ends-select :
      (q : Query)
      → IsOpenQuery q
      → Ends
          (Synced log name)
          (select sha256 u q)
          (λ ids db. Current log name db × All (IsReadable sha256 log name u.name) ids)
  unfolding select
  Ends-select q o =
      Ends-imp
        (λ ids db (c, sel). (
          c,
          selected-IsReadable sha256 log name (record q { user = u.name }) ids (opened q o) sel,
        ))
        (Ends-select-Current sha256 none log name (record q { user = u.name }))

  Ends-show_query :
      (q : Query) (page : ℤ) (selected : Bytes) (mis : List MsgInfo)
      → All (λ (i : MsgInfo). IsReadable sha256 log name u.name i.id) mis
      → Ends
          (Current log name)
          (show_query sha256 u q page selected mis)
          (λ p db. Current log name db × (length p.msgs ≤ page_size) × All IsShownTo p.msgs)
  unfolding show_query
  Ends-show_query q page selected mis h =
      let infos = query_infos sha256 u q mis in
      let readable_ids =
        infos-ids (IsReadable sha256 log name u.name) infos
          (query_infos-All (IsReadable sha256 log name u.name) sha256 u q mis h) in
      let p = make_pager (length mis) (query_page page selected infos) in
      Ends-bind (Current log name) _ _ _ _
        (Ends-gather page_size _
          (All-drop (IsReadable sha256 log name u.name) p.start _ readable_ids))
        (λ msgs. Ends-pure _ _ _ (λ db c. c))

  feed-IsOpenQuery : (rss : Bool) (q : Query) → IsOpenQuery q → IsOpenQuery (feed sha256 u rss q)
  unfolding feed
  feed-IsOpenQuery false q o = o
  feed-IsOpenQuery true q o = record {
    access_asked = o.access_asked;
    no_blacklist = o.no_blacklist;
    not_inverted = o.not_inverted;
    no_skip = o.no_skip;
    no_count = o.no_count;
  }

  -- A page of messages, for a query without Blacklisted, NoAccess, Invert, Skip and Count on files that hold
  -- a log, is made without a fault and leaves the log; it shows no more than 50 messages, each of them the
  -- last one with its id, not hidden (blacklisted, and not at offset 0), and one that the user may read.
  pub www_query-IsShownTo :
      (q : Query) (page : ℤ) (rss : Bool) (selected : Bytes) (db : Db)
      → IsOpenQuery q
      → Synced log name db
      → (p : MsgPage) × ((www_query sha256 u q page rss selected db).0 ≡ ok p)
        × Synced log name (www_query sha256 u q page rss selected db).1
        × (length p.msgs ≤ page_size)
        × All IsShownTo p.msgs
  unfolding www_query
  www_query-IsShownTo q page rss selected db o s =
      let q' = feed sha256 u rss q in
      let (p, e, (c, n, all)) =
        (Ends-bind (Synced log name) _ _ _ _ (Ends-select q' (feed-IsOpenQuery rss q o)) (λ ids.
            Ends-given _ (λ readable_ids.
              Ends-bind (Current log name) _ _ _ _
                (Ends-lookup_infos sha256 log name _ ids readable_ids)
                (λ mis. Ends-given _ (λ h. Ends-show_query q' page selected mis h))))).at
          db s in
      (p, e, c.0, n, all)
