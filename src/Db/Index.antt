-- ===== src/Db/Index.antt =====
-- ii/db.go: the lines of the index file, and what LoadIndex does with each of them.
pub mod Laws
use ii_go.Base.{length, Bytes, ℤ, Result, ok, err, ℕ, Option, none, some, List, [], ◌∷◌, ◌++◌}
use ii_go.Strings.{split, join}
use ii_go.Decimal.{print_int, scan_int64}
use ii_go.Dict

-- type MsgInfo; `off` is negative for a blacklisted message.
pub record MsgInfo : Type 0 where
  pub num : ℕ
  pub id : Bytes
  pub echo : Bytes
  pub to : Bytes
  pub off : ℤ
  pub repto : Bytes
  pub from : Bytes
  pub topic : Bytes

-- type Index; `hash` is `none` where the source's map is nil.
pub record Index : Type 0 where
  pub hash : Option (List (Bytes × MsgInfo))
  pub list : List Bytes
  pub file_size : ℕ

abbrev pub no_index : Index
no_index = record { hash = none; list = []; file_size = 0 }

-- One line of the index file.
pub record Entry : Type 0 where
  pub id : Bytes
  pub echo : Bytes
  pub off : ℤ
  pub to : Bytes
  pub from : Bytes
  pub repto : Bytes

-- fmt.Sprintf("%s:%s:%d:%s:%s:%s", …)
unfoldable pub entry_line : Entry → Bytes
entry_line e = join (e.id ∷ e.echo ∷ print_int e.off ∷ e.to ∷ e.from ∷ e.repto ∷ []) b':'

pub data LoadError : Type 0 where
  wrong_line wrong_offset : LoadError

unfoldable pub with_offset :
    Bytes → Bytes → Bytes → Bytes → Bytes → Option ℤ → Result LoadError Entry
with_offset id echo to from repto none = err wrong_offset
with_offset id echo to from repto (some off) =
    ok (record { id = id; echo = echo; off = off; to = to; from = from; repto = repto })

-- The first six columns; a line of fewer is refused.
unfoldable pub parse_columns : List Bytes → Result LoadError Entry
parse_columns (id ∷ echo ∷ off ∷ to ∷ from ∷ repto ∷ rest) =
    with_offset id echo to from repto (scan_int64 off)
parse_columns _ = err wrong_line

unfoldable pub parse_entry : Bytes → Result LoadError Entry
parse_entry line = parse_columns (split line b':')

-- The entry in memory: an id that is there keeps its number.
unfoldable pub to_info : Entry → ℕ → Option MsgInfo → MsgInfo
to_info e nr none = record {
  num = nr;
  id = e.id;
  echo = e.echo;
  to = e.to;
  off = e.off;
  repto = e.repto;
  from = e.from;
  topic = [];
}
to_info e nr (some old) = record {
  num = old.num;
  id = e.id;
  echo = e.echo;
  to = e.to;
  off = e.off;
  repto = e.repto;
  from = e.from;
  topic = [];
}

-- The map and the list while the file is read; `nr` of the source is the length of the list.
pub record Table : Type 0 where
  pub hash : List (Bytes × MsgInfo)
  pub list : List Bytes

abbrev pub list_with : List Bytes → Bytes → Option MsgInfo → List Bytes
list_with list id none = list ++ id ∷ []
list_with list id (some old) = list

unfoldable pub add_entry : Table → Entry → Table
add_entry t e = record {
  hash = Dict.put t.hash e.id (to_info e (length t.list) (Dict.get t.hash e.id));
  list = list_with t.list e.id (Dict.get t.hash e.id);
}

-- The callback of LoadIndex over the lines: it stops at the first bad one, and the table keeps what
-- was added before.
unfoldable pub read_lines : Table → List Bytes → Table × Option LoadError
read_lines t [] = (t, none)
read_lines t (line ∷ lines) = elim (parse_entry line) [
  | ok e ↦ read_lines (add_entry t e) lines
  | err e ↦ (t, some e)
]

-- `v.Topic = ""` for every entry.
abbrev pub untopic : MsgInfo → MsgInfo
untopic i = record i { topic = [] }

unfoldable pub clear_topics : List (Bytes × MsgInfo) → List (Bytes × MsgInfo)
clear_topics [] = []
clear_topics ((k, i) ∷ m) = (k, untopic i) ∷ clear_topics m
