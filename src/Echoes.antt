-- ===== src/Echoes.antt =====
-- ii/db.go, the echo areas (type EDB): the list of areas with who may write to them, and block words.
-- Go's package regexp is a parameter, as in Users/Policy.
pub mod Laws
mod Tests
use mathlib.Core.Option
use ii_go.Base.{
  if◌then◌else◌, Bytes, codes, str_eq, Result, ok, err, ◌-◌, Bool, true, false, ◌&&◌, ◌||◌, not,
  Option, none, some, List, [], ◌∷◌, ◌++◌,
}
use ii_go.Strings.{split, split_n, has_prefix, trim_prefix}
use ii_go.Dict
use ii_go.Msg.Tags.{get_or_empty, mem}
use ii_go.Msg.Encode.{Msg}
use ii_go.Db.State.{Panic, index_out_of_range}
use ii_go.Db.State.Files.{contents, lines}

-- type EDBPerm
pub record EdbPerm : Type 0 where
  pub allow : List Bytes
  pub write : Bool

-- type EDB
pub record Edb (Regex : Type 0) : Type 0 where
  pub perm : List (Bytes × EdbPerm)
  pub list : List Bytes
  pub info : List (Bytes × Bytes)
  pub block_words : List Regex

-- An area as its name column gives it: `-name!addr!addr`.
abbrev pub area_of : Bytes → List Bytes → Bytes × EdbPerm
area_of e allow =
    if has_prefix e (codes "-")
    then (trim_prefix e (codes "-"), record { allow = allow; write = false })
    else (e, record { allow = allow; write = true })

unfoldable pub parse_area : List Bytes → Bytes × EdbPerm
parse_area [] = area_of [] []
parse_area (e ∷ allow) = area_of e allow

module _ {Regex : Type 0} where
  abbrev pub no_areas : Edb Regex
  no_areas = record { perm = []; list = []; info = []; block_words = [] }

  unfoldable pub add_area : Bytes × EdbPerm → Bytes → Edb Regex → Edb Regex
  add_area (e, p) about db = record db {
    perm = Dict.put db.perm e p;
    info = Dict.put db.info e about;
    list = db.list ++ e ∷ [];
  }

  -- A line by its columns: of one it is skipped, and of two the third that is read is not there.
  unfoldable pub add_columns : List Bytes → Edb Regex → Result Panic (Edb Regex)
  add_columns (name ∷ size ∷ about ∷ rest) db =
      ok (add_area (parse_area (split name b'!')) about db)
  add_columns (name ∷ size ∷ []) db = err index_out_of_range
  add_columns _ db = ok db

  unfoldable pub load_areas : List Bytes → Edb Regex → Result Panic (Edb Regex)
  load_areas [] db = ok db
  load_areas (line ∷ ls) db = elim (add_columns (split_n line b':' 3) db) [
    | ok db' ↦ load_areas ls db'
    | err p ↦ err p
  ]

  -- LoadEcholist
  unfoldable pub load_echolist : Option Bytes → Result Panic (Edb Regex)
  load_echolist file = load_areas (lines (contents file)) no_areas

  module _ (compile : Bytes → Option Regex) where
    unfoldable pub words : List Bytes → List Regex
    words [] = []
    words (line ∷ ls) = elim (compile line) [ none ↦ words ls | some r ↦ r ∷ words ls ]

    -- LoadBlockwords
    unfoldable pub load_blockwords : Option Bytes → Edb Regex → Edb Regex
    load_blockwords file db = record db { block_words = words (lines (contents file)) }

  module _ (matches : Regex → Bytes → Bool) where
    unfoldable pub any_matches : List Regex → Bytes → Bool
    any_matches [] text = false
    any_matches (r ∷ rs) text = matches r text || any_matches rs text

    allowed_by : List Bytes → Bool → List Regex → Msg → Bool
    allowed_by [] write block_words m = write && not (any_matches block_words m.text)
    allowed_by (a ∷ rest) write block_words m =
        mem (a ∷ rest) m.addr || (not (str_eq (get_or_empty m.tags (codes "repto")) []) && write)

    -- The rules of one area: an address that is named may write, another only comment; where none is
    -- named, everybody may write what has no block word.
    unfoldable pub allowed : Option EdbPerm → List Regex → Msg → Bool
    unfolding allowed_by
    allowed none block_words m = false
    allowed (some p) block_words m = allowed_by p.allow p.write block_words m

    -- Access
    unfoldable pub edb_access : Edb Regex → Msg → Bool
    edb_access db m = elim db.list [
      | [] ↦ true
      | ◌∷◌ e es ↦ allowed (Dict.get db.perm m.echo) db.block_words m
    ]
