-- ===== src/Tool/Commands.antt =====
-- ii-tool/main.go: the commands search, blacklist, get, select and sort, on the arguments and options that were
-- parsed. What is given is the text that is printed, and the messages of sort.
pub mod Sorted
pub mod Endless
pub mod Printed
mod Tests
use ii_go.Base.{
  ltb, if◌then◌else◌, Bytes, codes, str_eq, ℤ, pos, negsuc, ok, err, ℕ, zero, suc, Bool, true,
  false, Option, none, some, List, [], ◌∷◌, ◌++◌,
}
use ii_go.Dict
use ii_go.Msg.Encode.{Msg, raw_text}
use ii_go.Db.Index.{MsgInfo}
use ii_go.Db.State.{nil_pointer, Exec, ◌>>=◌, ◌>>◌, pure, fault, gets}
use ii_go.Db.State.Files.{text_of}
use ii_go.Db.Load.{load_index}
use ii_go.Db.Access.{
  entries, StoreError, lookup_fast, lookup, lookup_ids, get_bundle_all, get_msg, get_fast,
  blacklist,
}
use ii_go.Db.Query.{Query, ids}
use ii_go.Db.Select.{select_ids}
use ii_go.Db.Topics.{Hash, parent_of}
use ii_go.Users.{no_user}
use ii_go.Node.Points.{any_query}
use ii_go.Node.Pages.Threads.{topic_ids, topics_of}

abbrev pub line_of : Bytes → Bytes
line_of t = t ++ b'\n' ∷ []

-- `mi := db.Idx.Hash[v]; mi.Echo != echo`, a nil pointer for an id without an entry
unfoldable pub in_area : Bytes → Bytes → Exec Bool
in_area echo id db =
    if str_eq echo [] then (ok true, db) else elim (Dict.get (entries db.idx.hash) id) [
      | none ↦ (err nil_pointer, db)
      | some i ↦ (ok (str_eq i.echo echo), db)
    ]

unfoldable pub search_line : (Bytes → Bool) → Bool → Bytes → Option Msg → Bytes
search_line matches verbose id none = []
search_line matches verbose id (some m) =
    if matches (raw_text m)
    then line_of id ++ (if verbose then line_of (raw_text m) else [])
    else []

-- `a.Date < b.Date`
unfoldable pub less : ℤ → ℤ → Bool
less (pos m) (pos n) = ltb m n
less (pos m) (negsuc n) = false
less (negsuc m) (pos n) = true
less (negsuc m) (negsuc n) = ltb n m

-- The test of the command sort.
unfoldable pub goes_before : Bool → Msg → Msg → Bool
goes_before invert a b = if invert then less b.date a.date else less a.date b.date

-- sort.SliceStable
unfoldable pub insert_msg : Bool → Msg → List Msg → List Msg
insert_msg invert m [] = m ∷ []
insert_msg invert m (n ∷ l) =
    let rest = insert_msg invert m l in if goes_before invert n m then n ∷ rest else m ∷ n ∷ l

unfoldable pub sort_msgs : Bool → List Msg → List Msg
sort_msgs invert [] = []
sort_msgs invert (m ∷ l) = insert_msg invert m (sort_msgs invert l)

module _ (sha256 : Bytes → Bytes) where
  -- The loop of search over the ids of the index; `matches` is the match of the expression.
  unfoldable pub search_ids : (Bytes → Bool) → Bytes → Bool → List Bytes → Exec Bytes
  search_ids matches echo verbose [] = pure []
  search_ids matches echo verbose (id ∷ ids) = do
    here ← in_area echo id
    m ← if here then get_fast sha256 id else pure none
    rest ← search_ids matches echo verbose ids
    pure (search_line matches verbose id m ++ rest)

  -- search
  unfoldable pub search : (Bytes → Bool) → Bytes → Bool → Exec Bytes
  search matches echo verbose = do
    e ← load_index sha256
    ids ← gets (λ db. db.idx.list)
    search_ids matches echo verbose ids

  unfoldable pub hide_msg : ℤ → Option Msg → Exec (Option StoreError)
  hide_msg now none = pure none
  hide_msg now (some m) = blacklist sha256 now m

  -- blacklist: the error with which the program ends.
  unfoldable pub hide : ℤ → Bytes → Exec (Option StoreError)
  hide now id = do m ← get_msg sha256 id; hide_msg now m

  -- The loop of get -t over the parents of a message, on fuel; `none` is a loop that has not ended with it.
  unfoldable pub topic_root : ℕ → Bytes → Hash → Bytes → Option MsgInfo → Option Bytes
  topic_root fuel echo hash topic none = some topic
  topic_root zero echo hash topic (some p) = none
  topic_root (suc fuel) echo hash topic (some p) =
      let other = topic_root fuel echo hash topic (parent_of hash p.repto) in
      let mine = topic_root fuel echo hash p.id (parent_of hash p.repto) in
      if str_eq p.repto p.id then some topic else if str_eq p.echo echo then mine else other

  unfoldable pub topic_lines : Bytes → Bytes → Option (List (Bytes × List Bytes)) → Option Bytes
  topic_lines id topic none = none
  topic_lines id topic (some topics) = some (text_of (topic_ids id (Dict.get topics topic)))

  unfoldable pub rooted : ℕ → Bytes → List MsgInfo → Option Bytes → Exec (Option Bytes)
  rooted fuel id mis none = pure none
  rooted fuel id mis (some topic) = do
    topics ← topics_of sha256 fuel no_user mis
    pure (topic_lines id topic topics)

  unfoldable pub get_topic : ℕ → Bytes → Option MsgInfo → Exec (Option Bytes)
  get_topic fuel id none = pure (some [])
  get_topic fuel id (some mi) = do
    ids ← select_ids sha256 none (record any_query { echo = mi.echo })
    mis ← lookup_ids sha256 ids
    topic ← gets (λ db. topic_root fuel mi.echo (entries db.idx.hash) mi.id (some mi))
    rooted fuel id mis topic

  -- get, with -t if `topics` is set
  unfoldable pub get : ℕ → Bool → Bytes → Exec (Option Bytes)
  get fuel topics id = if topics then (do mi ← lookup sha256 id; get_topic fuel id mi) else (do
    m ← get_msg sha256 id
    pure (some (elim m [ none ↦ [] | some o ↦ line_of (raw_text o) ])))

  -- A line of select; a message that is not shown is printed as Go prints a nil pointer.
  unfoldable pub select_line : Bool → Bool → Bytes → Exec Bytes
  select_line verbose bundle id =
      if verbose
      then (do
        m ← get_msg sha256 id
        pure (elim m [ none ↦ codes "<nil>\n" | some o ↦ line_of (raw_text o) ]))
      else if bundle
      then (do b ← get_bundle_all sha256 id; pure (line_of b))
      else pure (line_of id)

  unfoldable pub select_lines : Bool → Bool → List Bytes → Exec Bytes
  select_lines verbose bundle [] = pure []
  select_lines verbose bundle (id ∷ ids) = do
    l ← select_line verbose bundle id
    rest ← select_lines verbose bundle ids
    pure (l ++ rest)

  -- select, on the query of the options
  unfoldable pub select_area : Query → Bool → Bool → Bool → Exec Bytes
  select_area q topics verbose bundle = do
    ids ←
        select_ids sha256 none
          (record q { no_access = true; repto = if topics then codes "!" else [] })
    select_lines verbose bundle ids

  -- The messages of the ids that sort reads, `none` for one that cannot be read.
  unfoldable pub sort_input : List Bytes → Exec (List (Option Msg))
  sort_input [] = pure []
  sort_input (id ∷ ids) = do
    i ← lookup_fast sha256 id false
    m ← elim i [ none ↦ pure [] | some mi ↦ (do o ← get_msg sha256 mi.id; pure (o ∷ [])) ]
    rest ← sort_input ids
    pure (m ++ rest)

  unfoldable pub all_read : List (Option Msg) → Option (List Msg)
  all_read [] = some []
  all_read (none ∷ l) = none
  all_read (some m ∷ l) = elim (all_read l) [ none ↦ none | some ms ↦ some (m ∷ ms) ]

  -- sort, without -v: the messages in the order in which they are printed. A nil pointer is read when one is missing.
  unfoldable pub sort : Bool → List Bytes → Exec (List Msg)
  sort invert ids = do
    e ← load_index sha256
    read ← sort_input ids
    elim (all_read read) [ none ↦ fault nil_pointer | some ms ↦ pure (sort_msgs invert ms) ]
