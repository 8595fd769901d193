-- ===== src/Db/Load.antt =====
-- ii/db.go: _CreateIndex and LoadIndex.
use ii_go.Base.{
  ltb, if◌then◌else◌, length, drop, Bytes, codes, str_eq, ℤ, pos, neg, Result, ok, err, ℕ, ◌+◌,
  Option, none, some, List, [], ◌∷◌, ◌++◌,
}
use ii_go.Msg.Tags.{get_or_empty}
use ii_go.Msg.Encode.{Msg}
use ii_go.Msg.Decode.{decode_bundle}
use ii_go.Db.Index.{
  MsgInfo, no_index, Entry, entry_line, LoadError, parse_entry, Table, read_lines, clear_topics,
}
use ii_go.Db.State.{Db, nil_map, Exec}
use ii_go.Db.State.Files.{contents, lines, text_of}

-- The offset in the index: negative for a blacklisted message.
unfoldable pub signed_offset : Msg → ℕ → ℤ
signed_offset m off =
    if str_eq (get_or_empty m.tags (codes "access")) (codes "blacklist")
    then neg (pos off)
    else pos off

unfoldable pub entry_of : Msg → ℕ → Entry
entry_of m off = record {
  id = m.msg_id;
  echo = m.echo;
  off = signed_offset m off;
  to = m.to;
  from = m.from;
  repto = get_or_empty m.tags (codes "repto");
}

module _ (sha256 : Bytes → Bytes) where
  -- The callback of _CreateIndex over the lines of the bundle file; a line that is no bundle is
  -- skipped. The result is the lines that it writes.
  unfoldable pub index_lines : ℕ → List Bytes → List Bytes
  index_lines off [] = []
  index_lines off (line ∷ ls) =
      let rest = index_lines (off + (length line + 1)) ls in
      elim (decode_bundle sha256 line) [ ok m ↦ entry_line (entry_of m off) ∷ rest | err e ↦ rest ]

  -- A file that is opened without O_TRUNC and written from its start: what is longer stays.
  abbrev pub overwrite : Bytes → Bytes → Bytes
  overwrite old new = new ++ drop (length new) old

  -- _CreateIndex
  unfoldable pub create_index : Db → Db
  create_index db = record db {
    index =
        some (overwrite (contents db.index) (text_of (index_lines 0 (lines (contents db.bundle)))));
  }

  -- The lines from an offset, read into a table.
  unfoldable pub read_from : ℕ → Table → Bytes → Table × Option LoadError
  read_from off t file = read_lines t (lines (drop off file))

  abbrev empty_table : Table
  empty_table = record { hash = []; list = [] }

  -- What is stored in db.Idx after all lines are read: an error leaves it as it was.
  unfoldable pub finish : ℕ → Table × Option LoadError → Exec (Option LoadError)
  finish fsize (t, some e) db = (ok (some e), db)
  finish fsize (t, none) db =
      (ok none, record db { idx = record { hash = some t.hash; list = t.list; file_size = fsize } })

  -- No index in memory yet: read the whole file.
  unfoldable pub load_fresh : Bytes → Exec (Option LoadError)
  load_fresh file = finish (length file) (read_from 0 empty_table file)

  -- The file has grown: read its tail into the same map. The map is shared with db.Idx, so that what
  -- was added to it before an error stays there.
  unfoldable pub load_tail : Bytes → List (Bytes × MsgInfo) → Exec (Option LoadError)
  load_tail file hash db =
      let old = db.idx in
      let r = read_from old.file_size (record { hash = clear_topics hash; list = old.list }) file in
      finish (length file) r (record db { idx = record old { hash = some r.0.hash } })

  -- The first line of a rebuilt index is written to a map that was never made.
  unfoldable pub first_line : Option (Result LoadError Entry) → ℕ → Exec (Option LoadError)
  first_line none fsize db =
      (ok none, record db { idx = record { hash = none; list = []; file_size = fsize } })
  first_line (some (err e)) fsize db = (ok (some e), db)
  first_line (some (ok e)) fsize db = (err nil_map, db)

  abbrev pub head : List Bytes → Option (Result LoadError Entry)
  head [] = none
  head (l ∷ ls) = some (parse_entry l)

  -- The file has shrunk: rebuild it, and read it into an Index whose map is nil.
  unfoldable pub load_truncated : ℕ → Exec (Option LoadError)
  load_truncated fsize db =
      let db' = create_index db in first_line (head (lines (contents db'.index))) fsize db'

  unfoldable pub load_existing : Bytes → Option (List (Bytes × MsgInfo)) → Exec (Option LoadError)
  load_existing file none db = load_fresh file db
  load_existing file (some hash) db =
      if ltb db.idx.file_size (length file)
      then load_tail file hash db
      else if ltb (length file) db.idx.file_size
      then load_truncated (length file) db
      else (ok none, db)

  unfoldable pub load_from : Option Bytes → Exec (Option LoadError)
  load_from none db =
      let db' = create_index (record db { idx = no_index }) in load_fresh (contents db'.index) db'
  load_from (some file) db = load_existing file db.idx.hash db

  -- LoadIndex
  unfoldable pub load_index : Exec (Option LoadError)
  load_index db = load_from db.index db
