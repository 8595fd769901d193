-- ===== src/Db/Access.antt =====
-- ii/db.go: lookups, bundles, messages, and storing them.
use ii_go.Base.{
  if◌then◌else◌, length, drop, Bytes, codes, str_eq, ℤ, is_neg, abs, ok, err, ℕ, Bool, true, false,
  ◌&&◌, not, Option, none, some, List, [], ◌∷◌,
}
use ii_go.Dict
use ii_go.Msg.Tags.{add_or_keep}
use ii_go.Msg.Encode.{Msg, encode}
use ii_go.Msg.Decode.{decode_bundle}
use ii_go.Db.Index.{MsgInfo, entry_line, LoadError}
use ii_go.Db.State.{Db, Exec, ◌>>=◌, pure, gets}
use ii_go.Db.State.Files.{contents, append_file, lines}
use ii_go.Db.Load.{entry_of, load_index}

abbrev pub entries : Option (List (Bytes × MsgInfo)) → List (Bytes × MsgInfo)
entries none = []
entries (some m) = m

-- A blacklisted entry shows only to those that ask for it.
unfoldable pub visible : Bool → Option MsgInfo → Option MsgInfo
visible bl none = none
visible bl (some info) = if not bl && is_neg info.off then none else some info

unfoldable pub find_info : Bytes → Bool → Db → Option MsgInfo
find_info id bl db = visible bl (Dict.get (entries db.idx.hash) id)

-- The first line from an offset, empty if there is none.
abbrev first_or_empty : List Bytes → Bytes
first_or_empty [] = []
first_or_empty (l ∷ ls) = l

unfoldable pub bundle_at : ℕ → Bytes → Bytes
bundle_at off file = first_or_empty (lines (drop off file))

unfoldable pub bundle_of : Option Bytes → Option MsgInfo → Bytes × Option MsgInfo
bundle_of file none = ([], none)
bundle_of none (some info) = ([], none)
bundle_of (some file) (some info) = (bundle_at (abs info.off) file, some info)

pub data StoreError : Type 0 where
  already_exists : StoreError
  not_loaded : LoadError → StoreError

module _ (sha256 : Bytes → Bytes) where
  or_none : Bytes → Bool → Option LoadError → Exec (Option MsgInfo)
  or_none id bl (some e) = pure none
  or_none id bl none = gets (find_info id bl)

  -- _Lookup, after loading the index if `idx` is set
  unfoldable pub lookup_with : Bytes → Bool → Bool → Exec (Option MsgInfo)
  unfolding or_none
  lookup_with id bl true = do e ← load_index sha256; or_none id bl e
  lookup_with id bl false = gets (find_info id bl)

  -- LookupFast
  unfoldable pub lookup_fast : Bytes → Bool → Exec (Option MsgInfo)
  lookup_fast id bl = if str_eq id [] then pure none else lookup_with id bl false

  -- Lookup and Exists
  unfoldable pub lookup : Bytes → Exec (Option MsgInfo)
  lookup id = lookup_with id false true

  unfoldable pub exists : Bytes → Exec (Option MsgInfo)
  exists id = lookup_with id true true

  unfoldable pub collect : Option MsgInfo → List MsgInfo → List MsgInfo
  collect none infos = infos
  collect (some i) infos = i ∷ infos

  -- LookupIDS
  unfoldable pub lookup_ids : List Bytes → Exec (List MsgInfo)
  unfolding collect
  lookup_ids [] = pure []
  lookup_ids (id ∷ ids) = do
    i ← lookup_with id false true
    rest ← lookup_ids ids
    pure (collect i rest)

  -- _GetBundle
  unfoldable pub get_bundle_with : Bytes → Bool → Bool → Exec (Bytes × Option MsgInfo)
  get_bundle_with id idx bl = do info ← lookup_with id bl idx; gets (λ db. bundle_of db.bundle info)

  -- GetBundle, GetBundleAll and GetBundleInfo
  unfoldable pub get_bundle : Bytes → Exec Bytes
  get_bundle id = do r ← get_bundle_with id true false; pure r.0

  unfoldable pub get_bundle_all : Bytes → Exec Bytes
  get_bundle_all id = do r ← get_bundle_with id true true; pure r.0

  unfoldable pub get_bundle_info : Bytes → Exec (Bytes × Option MsgInfo)
  get_bundle_info id = get_bundle_with id true false

  -- The decoded bundle; a line that cannot be decoded gives no message.
  unfoldable pub decoded : Bytes → Option Msg
  decoded b =
      if str_eq b [] then none else elim (decode_bundle sha256 b) [ ok m ↦ some m | err e ↦ none ]

  -- Get and GetFast
  unfoldable pub get_msg : Bytes → Exec (Option Msg)
  get_msg id = do b ← get_bundle id; pure (decoded b)

  unfoldable pub get_fast : Bytes → Exec (Option Msg)
  get_fast id = do r ← get_bundle_with id false false; pure (decoded r.0)

  module _ (now : ℤ) where
    -- The two appends of _Store; the message is encoded before its index line is written.
    unfoldable pub write_msg : Msg → Db → Db
    write_msg m db =
        let (line, m') = encode sha256 now m in
        record db {
          bundle = append_file db.bundle line;
          index = append_file db.index (entry_line (entry_of m' (length (contents db.bundle))));
        }

    unfoldable pub is_known : Option MsgInfo → Bool
    is_known none = false
    is_known (some i) = true

    unfoldable pub put_msg : Msg → Bool → Option LoadError → Exec (Option StoreError)
    put_msg m edit (some e) db = (ok (some (not_loaded e)), db)
    put_msg m edit none db =
        if is_known (Dict.get (entries db.idx.hash) m.msg_id) && not edit
        then (ok (some already_exists), db)
        else (ok none, write_msg m db)

    -- _Store
    unfoldable pub store_with : Msg → Bool → Exec (Option StoreError)
    unfolding put_msg is_known
    store_with m edit = do e ← load_index sha256; put_msg m edit e

    -- Store, Edit and Blacklist
    unfoldable pub store : Msg → Exec (Option StoreError)
    store m = store_with m false

    unfoldable pub edit : Msg → Exec (Option StoreError)
    edit m = store_with m true

    unfoldable pub blacklist : Msg → Exec (Option StoreError)
    blacklist m = edit (record m { tags = add_or_keep m.tags (codes "access/blacklist") })
