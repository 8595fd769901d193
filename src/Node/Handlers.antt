-- ===== src/Node/Handlers.antt =====
-- ii-node/main.go: get_ue and the handlers of the node's texts. A handler takes the URL's path, which
-- begins with its pattern, and gives what it writes; with a panic, what was written before is left out.
pub mod Bundles
pub mod Lists
mod Tests
use ii_go.Base.{
  if◌then◌else◌, drop, Bytes, codes, str_eq, ℤ, pos, Result, ok, err, ℕ, Bool, true, ◌||◌, not,
  Option, none, some, List, [], ◌∷◌, ◌++◌,
}
use ii_go.Strings.{split}
use ii_go.Decimal.{print_int}
use ii_go.Dict
use ii_go.Msg.Valid.{is_msg_id, is_private, is_echo}
use ii_go.Msg.Encode.{Msg, raw_text}
use ii_go.Db.Index.{MsgInfo}
use ii_go.Db.State.{Db, Panic, nil_pointer, Exec, ◌>>=◌, ◌>>◌, pure, fault}
use ii_go.Db.State.Files.{text_of}
use ii_go.Db.Access.{get_bundle_info, get_msg}
use ii_go.Db.Query.{access, ids}
use ii_go.Db.Select.{select_ids}
use ii_go.Db.Areas.{Echo, echoes}
use ii_go.Users.{User, no_user}
use ii_go.Users.Policy.{Udb}
use ii_go.Users.Load.{load_users}
use ii_go.Users.Account.{has_secret, user_info}
use ii_go.Echoes.{Edb}
use ii_go.Node.Points.{any_query, area_ids, Answer, point_msg}

-- What is written: texts, or the answer of PointMsg.
pub data Reply : Type 0 where
  text : Bytes → Reply
  answer : Answer → Reply

abbrev pub path_args : ℕ → Bytes → List Bytes
path_args n path = split (drop n path) b'/'

-- The last element, after the others.
unfoldable pub split_last : Bytes → List Bytes → List Bytes × Bytes
split_last e [] = ([], e)
split_last e (f ∷ l) = let (others, last) = split_last f l in (e ∷ others, last)

-- The lines of /list.txt and of /x/c/, for the areas that are not private.
unfoldable pub area_lines : (Bytes → Bytes) → List Echo → List Bytes
area_lines info [] = []
area_lines info (v ∷ list) =
    let rest = area_lines info list in
    if is_private v.name
    then rest
    else (v.name ++ b':' ∷ print_int (pos v.count) ++ b':' ∷ info v.name) ∷ rest

-- A bundle as it is written, if a test lets it through.
unfoldable pub write_bundle : (MsgInfo → Bool) → Bytes × Option MsgInfo → Exec Bytes
write_bundle test (m, info) = if str_eq m [] then pure [] else elim info [
  | none ↦ fault nil_pointer
  | some i ↦ pure (if test i then m ++ b'\n' ∷ [] else [])
]

-- The message of /m/.
unfoldable pub raw_msg : Option Msg → Bytes
raw_msg none = []
raw_msg (some m) = if is_private m.echo then [] else raw_text m

module _ (sha256 : Bytes → Bytes) where
  unfoldable pub write_bundles : (MsgInfo → Bool) → List Bytes → Exec Bytes
  write_bundles test [] = pure []
  write_bundles test (i ∷ ids) = do
    r ← get_bundle_info sha256 i
    line ← write_bundle test r
    rest ← write_bundles test ids
    pure (line ++ rest)

  -- /u/m/
  unfoldable pub u_m : Bytes → Exec Bytes
  u_m path = write_bundles (λ i. not (is_private i.echo)) (path_args 5 path)

  -- /m/
  unfoldable pub m_raw : Bytes → Exec Bytes
  m_raw path =
      let id = drop 3 path in
      if not (is_msg_id id) then pure [] else do m ← get_msg sha256 id; pure (raw_msg m)

  -- /e/
  unfoldable pub e_ids : Bytes → Exec Bytes
  e_ids path =
      let e = drop 3 path in
      if not (is_echo e) || is_private e
      then pure []
      else do ids ← select_ids sha256 none (record any_query { echo = e }); pure (text_of ids)

  -- /list.txt
  unfoldable pub list_txt : {Regex : Type 0} → Edb Regex → Exec Bytes
  list_txt edb = do
    list ← echoes sha256 none none any_query
    pure (text_of (area_lines (λ e. elim (Dict.get edb.info e) [ none ↦ [] | some i ↦ i ]) list))

  -- /blacklist.txt
  unfoldable pub blacklist_txt : Exec Bytes
  blacklist_txt = do
    ids ← select_ids sha256 none (record any_query { blacklisted = true })
    pure (text_of ids)

  -- /x/c/
  unfoldable pub x_c : Bytes → Exec Bytes
  x_c path = do
    list ← echoes sha256 none (some (path_args 5 path)) any_query
    pure (text_of (area_lines (λ e. []) list))

  -- `scan_range` is fmt's reading of "%d:%d", `none` unless both numbers are read.
  module _ (scan_range : Bytes → Option (ℤ × ℤ)) where
    unfoldable pub ranged : User → List Bytes → List Bytes → Option (ℤ × ℤ) → Exec (List Bytes)
    ranged u all others none = area_ids sha256 (pos 0) (pos 0) u all
    ranged u all others (some (idx, lim)) = area_ids sha256 idx lim u others

    -- get_ue
    unfoldable pub get_ue : User → List Bytes → Exec Bytes
    get_ue u [] = pure []
    get_ue u (e ∷ es) = do
      let (others, last) = split_last e es
      l ← ranged u (e ∷ es) others (scan_range last)
      pure (text_of l)

    -- /u/e/
    unfoldable pub u_e : Bytes → Exec Bytes
    u_e path = get_ue no_user (path_args 5 path)

    -- The lists and the messages of a point: pauth/u/e/… and pauth/u/m/….
    unfoldable pub as_point : Bytes → List Bytes → Option User → Exec Bytes
    as_point what rest none = pure []
    as_point what rest (some u) =
        if str_eq what (codes "e")
        then get_ue u rest
        else if str_eq what (codes "m")
        then write_bundles (λ i. access i u.name) rest
        else pure []

    module _ {Regex : Type 0} (now : ℤ) (matches : Regex → Bytes → Bool)
        (compile : Bytes → Option Regex) (edb : Edb Regex) where
      unfoldable pub posted : Bytes → Bytes → Udb Regex → Db → (Result Panic Reply × Db) × Udb Regex
      posted pauth tmsg udb db =
          let (r, udb') = point_msg sha256 now matches compile edb pauth tmsg udb db in
          ((elim r.0 [ ok a ↦ ok (answer a) | err p ↦ err p ], r.1), udb')

      unfoldable pub asked : Bytes → Bytes → List Bytes → Udb Regex → Exec Reply
      asked pauth what rest udb =
          if has_secret udb pauth
          then (do t ← as_point what rest (user_info udb pauth); pure (text t))
          else pure (text [])

      unfoldable pub point_args :
          List Bytes → Udb Regex → Db → (Result Panic Reply × Db) × Udb Regex
      point_args (pauth ∷ tmsg ∷ []) udb db = posted pauth tmsg udb db
      point_args (pauth ∷ u ∷ what ∷ rest) udb db =
          if str_eq u (codes "u")
          then (asked pauth what rest udb db, udb)
          else ((ok (text []), db), udb)
      point_args _ udb db = ((ok (text []), db), udb)

      unfoldable pub users_read :
          List Bytes
          → Result Panic (Unit {0}) × Udb Regex
          → Db
          → (Result Panic Reply × Db) × Udb Regex
      users_read args (err p, udb) db = ((err p, db), udb)
      users_read args (ok t, udb) db = point_args args udb db

      -- /u/point/ on GET
      unfoldable pub point_get : Bytes → Udb Regex → Db → (Result Panic Reply × Db) × Udb Regex
      point_get path udb db = users_read (path_args 9 path) (load_users compile udb) db
