-- ===== src/Db/Select.antt =====
-- ii/db.go: SelectIDS on the database, whose index it loads first.
use ii_go.Base.{Bytes, ok, err, Bool, Option, none, some, List, [], ◌∷◌}
use ii_go.Dict
use ii_go.Db.Index.{MsgInfo, LoadError}
use ii_go.Db.State.{nil_pointer, Exec, ◌>>=◌, pure}
use ii_go.Db.Load.{load_index}
use ii_go.Db.Access.{entries}
use ii_go.Db.Query.{Query, Rows, select_rows}

and_row : Bytes → Option MsgInfo → Option Rows → Option Rows
and_row id (some info) (some rows) = some ((id, info) ∷ rows)
and_row id _ _ = none

-- `db.Idx.Hash[id]` for the listed ids; `none` if one of them has no entry. The source looks an entry
-- up when its loop comes to it.
unfoldable pub rows_of : List (Bytes × MsgInfo) → List Bytes → Option Rows
unfolding and_row
rows_of hash [] = some []
rows_of hash (id ∷ list) = and_row id (Dict.get hash id) (rows_of hash list)

module _ (sha256 : Bytes → Bytes) (custom : Option (Query → MsgInfo → Bool)) where
  unfoldable pub select_loaded : Query → Option LoadError → Exec (List Bytes)
  select_loaded q (some e) = pure []
  select_loaded q none = λ db. elim (rows_of (entries db.idx.hash) db.idx.list) [
    | none ↦ (err nil_pointer, db)
    | some rows ↦ (ok (select_rows custom q rows), db)
  ]

  -- SelectIDS
  unfoldable pub select_ids : Query → Exec (List Bytes)
  select_ids q = do e ← load_index sha256; select_loaded q e
