-- ===== src/Db/Query.antt =====
-- ii/db.go: queries on the index, and SelectIDS.
pub mod Laws
pub mod Count
pub mod Selected
mod Tests
use ii_go.Base.{
  leb, ◌==◌, if◌then◌else◌, length, take, All, Bytes, codes, str_eq, ℤ, pos, negsuc, is_neg, abs, ℕ,
  zero, suc, Bool, true, false, ◌&&◌, ◌||◌, not, Option, none, some, List, [], ◌∷◌, ◌++◌, map,
  reverse,
}
use ii_go.Msg.Valid.{is_private}
use ii_go.Db.Index.{MsgInfo}

-- type Query, but for its `Match`, which is a parameter below; of `User`, only the name is read.
pub record Query : Type 0 where
  pub echo : Bytes
  pub repto : Bytes
  pub from : Bytes
  pub to : Bytes
  pub start : ℤ
  pub lim : ℤ
  pub skip : ℤ
  pub count : ℤ
  pub blacklisted : Bool
  pub no_access : Bool
  pub user : Bytes
  pub invert : Bool

-- Access: a private message shows to its author and its addressee, or to every user if it is to All.
unfoldable pub access : MsgInfo → Bytes → Bool
access info user =
    not (is_private info.echo)
    || (not (str_eq user [])
        && (str_eq info.to (codes "All") || str_eq info.from user || str_eq info.to user))

-- A filter on a column: an empty one lets all pass.
abbrev pub selects : Bytes → Bytes → Bool
selects want value = str_eq want [] || str_eq want value

-- The filter on the parent: "!" asks for messages that answer none.
abbrev pub selects_repto : Bytes → Bytes → Bool
selects_repto want value = if str_eq want (codes "!") then str_eq value [] else selects want value

-- The blacklisted messages alone, or the others, or all.
abbrev pub selects_offset : Query → ℤ → Bool
selects_offset q off = if q.blacklisted then is_neg off else not (is_neg off) || q.no_access

-- The tests of _Match on the columns, before `Match`, `Skip` and `Count`.
unfoldable pub fits : Query → MsgInfo → Bool
fits q info =
    selects_offset q info.off
    && selects q.echo info.echo
    && selects_repto q.repto info.repto
    && selects q.to info.to
    && selects q.from info.from
    && (q.no_access || access info q.user)

abbrev pub is_pos : ℤ → Bool
is_pos (pos zero) = false
is_pos (pos (suc n)) = true
is_pos (negsuc n) = false

abbrev pub pred : ℤ → ℤ
pred (pos zero) = negsuc 0
pred (pos (suc n)) = pos n
pred (negsuc n) = negsuc (suc n)

-- A count that reaches 0 becomes -1, at which nothing matches.
abbrev pub spend : ℤ → ℤ
spend (pos zero) = negsuc 0
spend z = z

-- The end of _Match, on what `Match` said.
unfoldable pub count_match : Bool → Query → Bool × Query
count_match false q = (false, q)
count_match true q =
    if is_pos q.skip
    then (false, record q { skip = pred q.skip })
    else if is_pos q.count
    then (true, record q { count = spend (pred q.count) })
    else (true, q)

abbrev pub flip : Bool → Bool × Query → Bool × Query
flip b (r, q) = (if b then not r else r, q)

-- The entries that a query looks at, each by its id.
abbrev pub Rows : Type 0
Rows = List (Bytes × MsgInfo)

abbrev pub ids : Rows → List Bytes
ids rows = map (λ (r : Bytes × MsgInfo). r.0) rows

-- At most the number of elements that is asked for, all if that is not positive.
abbrev pub limit {ℓ} : {A : Type ℓ} → ℤ → List A → List A
limit (pos zero) l = l
limit (pos (suc n)) l = take (suc n) l
limit (negsuc n) l = l

-- `r.Lim > 0 && len(Resp) >= r.Lim`
abbrev pub is_full : ℤ → List Bytes → Bool
is_full lim resp = is_pos lim && leb (abs lim) (length resp)

-- `custom` is the query's Match function, which leaves the query as it is.
module _ (custom : Option (Query → MsgInfo → Bool)) where
  abbrev pub custom_test : Query → MsgInfo → Bool
  custom_test q info = elim custom [ none ↦ true | some f ↦ f q info ]

  -- _Match: its result, and the query after it.
  unfoldable pub match_row : MsgInfo → Query → Bool × Query
  match_row info q =
      if is_neg q.count
      then (false, q)
      else if fits q info
      then count_match (custom_test q info) q
      else (false, q)

  -- Match
  unfoldable pub match_info : MsgInfo → Query → Bool × Query
  match_info info q = flip q.invert (match_row info q)

  -- The loop from the end, on the rows in reverse order: `found` is -start of the source, and what
  -- was found so far stands in front.
  unfoldable pub select_back : ℕ → ℕ → List Bytes → Query → Rows → List Bytes
  select_back start found resp q [] = resp
  select_back start found resp q ((id, info) ∷ rows) =
      let (matched, q') = match_info info q in
      let more = select_back start (suc found) (id ∷ resp) q' rows in
      let passed = select_back start found resp q' rows in
      if matched then (if suc found == start then id ∷ resp else more) else passed

  -- The loop from the front.
  unfoldable pub select_front : ℕ → ℤ → ℕ → List Bytes → Query → Rows → List Bytes
  select_front start lim found resp q [] = resp
  select_front start lim found resp q ((id, info) ∷ rows) =
      let (matched, q') = match_info info q in
      let resp' = if leb start found then resp ++ id ∷ [] else resp in
      let more = select_front start lim (suc found) resp' q' rows in
      let passed = select_front start lim found resp q' rows in
      if matched then (if is_full lim resp' then resp' else more) else passed

  -- SelectIDS on the rows of the index
  unfoldable pub select_rows : Query → Rows → List Bytes
  select_rows q rows =
      if is_neg q.start
      then limit q.lim (select_back (abs q.start) 0 [] q (reverse rows))
      else select_front (abs q.start) q.lim 0 [] q rows
