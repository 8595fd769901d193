-- ===== src/Db/Areas.antt =====
-- ii/db.go: Echoes, the areas with their counts, the last message in front.
use ii_go.Base.{
  ltb, if◌then◌else◌, Bytes, str_eq, ℤ, pos, negsuc, is_neg, ℕ, ◌+◌, Bool, true, false, ◌&&◌,
  Option, none, some, List, [], ◌∷◌, map,
}
use ii_go.Dict
use ii_go.Msg.Tags.{no_tags, mem}
use ii_go.Msg.Encode.{Msg}
use ii_go.Db.Index.{MsgInfo, LoadError}
use ii_go.Db.State.{nil_pointer, Exec, ◌>>=◌, pure, fault, gets}
use ii_go.Db.Load.{load_index}
use ii_go.Db.Access.{entries, get_fast}
use ii_go.Db.Query.{Query, Rows, match_info}
use ii_go.Db.Select.{rows_of}

-- type Echo
pub record Echo : Type 0 where
  pub name : Bytes
  pub count : ℕ
  pub topics : ℕ
  pub last : MsgInfo
  pub msg : Msg

abbrev pub no_msg : Msg
no_msg = record {
  msg_id = [];
  tags = no_tags;
  echo = [];
  date = pos 0;
  from = [];
  addr = [];
  to = [];
  subj = [];
  text = [];
}

-- One message more in its area; a message without a parent is a topic.
unfoldable pub count_in : MsgInfo → Option Echo → Echo
count_in info none = record {
  name = info.echo;
  count = 1;
  topics = if str_eq info.repto [] then 1 else 0;
  last = info;
  msg = no_msg;
}
count_in info (some v) = record v {
  topics = if str_eq info.repto [] then v.topics + 1 else v.topics;
  count = v.count + 1;
  last = info;
}

abbrev pub is_asked : Option (List Bytes) → Bytes → Bool
is_asked none e = true
is_asked (some names) e = mem names e

module _ (custom : Option (Query → MsgInfo → Bool)) where
  -- The loop over the index. A blacklisted entry is not shown to the query.
  unfoldable pub tally :
      Option (List Bytes) → Query → Rows → List (Bytes × Echo) → List (Bytes × Echo)
  tally names q [] hash = hash
  tally names q ((id, info) ∷ rows) hash =
      let (matched, q') = match_info custom info q in
      let skipped = tally names q rows hash in
      let passed = tally names q' rows hash in
      let counted =
        tally names q' rows (Dict.put hash info.echo (count_in info (Dict.get hash info.echo))) in
      if is_neg info.off
      then skipped
      else if matched && is_asked names info.echo
      then counted
      else passed

-- The areas that were asked for, in the order of the names; else all, in the order of the map, which
-- Go leaves open and which is here that of the first message.
unfoldable pub listed : Option (List Bytes) → List (Bytes × Echo) → List Echo
listed none hash = map (λ (r : Bytes × Echo). r.1) hash
listed (some []) hash = []
listed (some (n ∷ names)) hash =
    let rest = listed (some names) hash in
    elim (Dict.get hash n) [ none ↦ rest | some v ↦ v ∷ rest ]

-- `a > b`
abbrev pub greater : ℤ → ℤ → Bool
greater (pos m) (pos n) = ltb n m
greater (pos m) (negsuc n) = true
greater (negsuc m) (pos n) = false
greater (negsuc m) (negsuc n) = ltb m n

-- sort.SliceStable by the date of the last message, the latest first.
unfoldable pub insert_by_date : Echo → List Echo → List Echo
insert_by_date e [] = e ∷ []
insert_by_date e (f ∷ l) =
    let rest = insert_by_date e l in if greater f.msg.date e.msg.date then f ∷ rest else e ∷ f ∷ l

unfoldable pub sort_by_date : List Echo → List Echo
sort_by_date [] = []
sort_by_date (e ∷ l) = insert_by_date e (sort_by_date l)

or_no_msg : Option Msg → Msg
or_no_msg none = no_msg
or_no_msg (some m) = m

module _ (sha256 : Bytes → Bytes) (custom : Option (Query → MsgInfo → Bool)) where
  unfoldable pub with_msgs : List Echo → Exec (List Echo)
  unfolding or_no_msg
  with_msgs [] = pure []
  with_msgs (v ∷ list) = do
    m ← get_fast sha256 v.last.id
    rest ← with_msgs list
    pure (record v { msg = or_no_msg m } ∷ rest)

  unfoldable pub areas_loaded : Option (List Bytes) → Query → Option LoadError → Exec (List Echo)
  areas_loaded names q (some e) = pure []
  areas_loaded names q none = do
    rows ← gets (λ db. rows_of (entries db.idx.hash) db.idx.list)
    elim rows [
      | none ↦ fault nil_pointer
      | some rs ↦ do
        list ← with_msgs (listed names (tally custom names q rs []))
        pure (sort_by_date list)
    ]

  -- Echoes
  unfoldable pub echoes : Option (List Bytes) → Query → Exec (List Echo)
  echoes names q = do e ← load_index sha256; areas_loaded names q e
