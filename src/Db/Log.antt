-- ===== src/Db/Log.antt =====
-- The database as a log: what the bundle file, the index file and the index in memory hold after the
-- messages of a list were stored, and which message an id names then.
pub mod Entries
pub mod Load
pub mod Get
pub mod Store
pub mod Keeps
pub mod Rows
pub mod Names
pub mod Bundle
pub mod Fast
use ii_go.Base.{
  if◌then◌else◌, length, All, Bytes, codes, str_eq, Lacks, ℕ, ◌+◌, ◌^◌, ◌<◌, ◌≡◌, ◌⊎◌, Bool, true,
  false, Option, none, some, List, [], ◌∷◌, ◌++◌, map,
}
use ii_go.Msg.Tags.{get_or_empty}
use ii_go.Msg.Encode.{Msg}
use ii_go.Msg.RoundTrip.{IsStorable, bundle_line}
use ii_go.Db.Index.{MsgInfo, Index, Entry, entry_line, Table, clear_topics}
use ii_go.Db.Index.Laws.{add_entries}
use ii_go.Db.State.{Db}
use ii_go.Db.State.Files.{contents, text_of}
use ii_go.Db.Load.{entry_of}

-- A message whose index line can be read back: no colon and no newline in its columns.
pub record IsIndexable (m : Msg) : Type 0 where
  pub storable : IsStorable m
  pub id_line : Lacks b'\n' m.msg_id
  pub to_colon : Lacks b':' m.to
  pub from_colon : Lacks b':' m.from
  pub repto_column :
      Lacks b':' (get_or_empty m.tags (codes "repto"))
      × Lacks b'\n' (get_or_empty m.tags (codes "repto"))

abbrev pub bundle_lines : List Msg → List Bytes
bundle_lines [] = []
bundle_lines (m ∷ ms) = bundle_line m ∷ bundle_lines ms

-- The index of the messages, the first of which stands at an offset.
abbrev pub entries_of : ℕ → List Msg → List Entry
entries_of off [] = []
entries_of off (m ∷ ms) = entry_of m off ∷ entries_of (off + (length (bundle_line m) + 1)) ms

abbrev pub bundle_text : List Msg → Bytes
bundle_text log = text_of (bundle_lines log)

abbrev pub index_text : List Msg → Bytes
index_text log = text_of (map entry_line (entries_of 0 log))

unfoldable pub table : List Msg → Table
table log = add_entries (record { hash = []; list = [] }) (entries_of 0 log)

-- A table without the topics, which are found out later.
abbrev pub untopic_table : Table → Table
untopic_table t = record { hash = clear_topics t.hash; list = t.list }

-- The index in memory is that of the messages.
pub record IsLoaded (idx : Index) (log : List Msg) : Type 0 where
  pub entries : List (Bytes × MsgInfo)
  pub hash_entries : idx.hash ≡ some entries
  pub same_table : untopic_table (record { hash = entries; list = idx.list }) ≡ table log
  pub whole_file : idx.file_size ≡ length (index_text log)

-- The index in memory is that of the first messages; others were stored since.
pub record IsBehind (idx : Index) (log : List Msg) : Type 0 where
  pub seen : List Msg
  pub unseen : List Msg
  pub all_of_log : log ≡ seen ++ unseen
  pub loaded : IsLoaded idx seen

-- The files hold the messages; the index file may be missing, and no index be loaded.
pub record IsSynced (db : Db) (log : List Msg) : Type 0 where
  pub indexable : All IsIndexable log
  pub bundle_file : contents db.bundle ≡ bundle_text log
  pub size : length (bundle_text log) < 2 ^ 63
  pub index_file : (db.index ≡ none) ⊎ (db.index ≡ some (index_text log))
  pub memory : (db.idx.hash ≡ none) ⊎ IsBehind db.idx log

-- The last message with an id, and its offset.
unfoldable pub latest : Bytes → ℕ → List Msg → Option (ℕ × Msg)
latest id off [] = none
latest id off (m ∷ ms) = elim (latest id (off + (length (bundle_line m) + 1)) ms) [
  | some r ↦ some r
  | none ↦ if str_eq m.msg_id id then some (off, m) else none
]

abbrev pub is_stored : Option (ℕ × Msg) → Bool
is_stored none = false
is_stored (some r) = true
