-- ===== src/Node/Points.antt =====
-- ii-node/main.go: what a point may post (PointPolicy, PointMsg), and the ids it asks for (get_ue).
pub mod Laws
pub mod Posting
use ii_go.Base.{
  leb, if◌then◌else◌, length, Bytes, codes, str_eq, ℤ, pos, negsuc, same_int, Result, ok, err, ℕ,
  Bool, true, false, ◌&&◌, ◌||◌, not, Option, none, some, List, [], ◌∷◌, ◌++◌,
}
use ii_go.Decimal.{print_int}
use ii_go.Msg.Tags.{get_or_empty}
use ii_go.Msg.Valid.{is_echo}
use ii_go.Msg.Encode.{Msg}
use ii_go.Msg.Decode.{MsgError}
use ii_go.Msg.Line.{decode_msgline}
use ii_go.Db.Index.{MsgInfo}
use ii_go.Db.State.{Db, Panic, Exec, ◌>>=◌, ◌>>◌, pure, gets}
use ii_go.Db.Access.{StoreError, lookup, lookup_ids, store}
use ii_go.Db.Query.{Query, ids, limit}
use ii_go.Db.Select.{select_ids}
use ii_go.Users.{User}
use ii_go.Users.Policy.{Udb, atoi}
use ii_go.Users.Load.{load_users}
use ii_go.Users.Account.{has_secret, user_info, id_of}
use ii_go.Echoes.{Edb, edb_access}

abbrev pub any_query : Query
any_query = record {
  echo = [];
  repto = [];
  from = [];
  to = [];
  start = pos 0;
  lim = pos 0;
  skip = pos 0;
  count = pos 0;
  blacklisted = false;
  no_access = false;
  user = [];
  invert = false;
}

-- `lim` of PointPolicy
abbrev pub limit_of : User → ℤ
limit_of u =
    let tlim = get_or_empty u.tags (codes "limit") in if str_eq tlim [] then pos 0 else atoi tlim

-- `len(mis) >= lim`
abbrev pub at_least : ℕ → ℤ → Bool
at_least n (pos lim) = leb lim n
at_least n (negsuc lim) = true

abbrev pub is_watched : User → Bool
is_watched u =
    let v = get_or_empty u.tags (codes "status") in
    str_eq v (codes "new") || str_eq v (codes "moderated")

module _ (sha256 : Bytes → Bytes) where
  unfoldable pub count_posts : Bytes → ℤ → Exec Bool
  count_posts from lim = do
    ids ← select_ids sha256 none (record any_query { from = from; lim = lim })
    infos ← lookup_ids sha256 ids
    pure (not (at_least (length infos) lim))

  -- PointPolicy: a new or moderated user may post while there are fewer messages than its limit.
  unfoldable pub point_policy : User → Msg → Exec Bool
  unfolding count_posts
  point_policy u m = if is_watched u then count_posts m.from (limit_of u) else pure true

  -- get_ue on the names of areas: what is printed for each.
  unfoldable pub area_ids : ℤ → ℤ → User → List Bytes → Exec (List Bytes)
  area_ids idx lim u [] = pure []
  area_ids idx lim u (e ∷ echoes) =
      let rest = area_ids idx lim u echoes in
      elim (is_echo e) [
        | false ↦ rest
        | true ↦ do
          ids ←
              select_ids sha256 none
                (record any_query { echo = e; start = idx; lim = lim; user = u.name })
          more ← rest
          pure ((e ∷ ids) ++ more)
      ]

-- The answers of PointMsg.
pub data Answer : Type 0 where
  msg_ok access_denied unknown_repto no_user_info not_verified : Answer
  wrong_line : MsgError → Answer
  not_stored : StoreError → Answer

-- `now` is the clock of DecodeMsgline and of Encode.
module _ {Regex : Type 0} (sha256 : Bytes → Bytes) (now : ℤ) (matches : Regex → Bytes → Bool) where
  unfoldable pub stored_answer : Option StoreError → Answer
  stored_answer none = msg_ok
  stored_answer (some e) = not_stored e

  unfoldable pub store_allowed : Edb Regex → User → Msg → Bool → Exec Answer
  unfolding stored_answer
  store_allowed edb u m false = pure not_verified
  store_allowed edb u m true =
      if not (edb_access matches edb m) && not (same_int u.id (pos 1))
      then pure access_denied
      else do r ← store sha256 now m; pure (stored_answer r)

  -- The message gets its author and address before the policy and the rights of the area are asked.
  unfoldable pub signed : Msg → User → Udb Regex → Bytes → Bytes → Msg
  signed m u udb pauth name = record m {
    from = u.name;
    addr = name ++ b',' ∷ print_int (id_of udb pauth);
  }

  unfoldable pub as_user : Edb Regex → Udb Regex → Bytes → Msg → Option User → Exec Answer
  unfolding store_allowed signed
  as_user edb udb pauth m none = pure no_user_info
  as_user edb udb pauth m (some u) = do
    name ← gets (λ db. db.name)
    good ← point_policy sha256 u (signed m u udb pauth name)
    store_allowed edb u (signed m u udb pauth name) good

  unfoldable pub is_found : Option MsgInfo → Bool
  is_found none = false
  is_found (some i) = true

  unfoldable pub repto_known : Bytes → Exec Bool
  unfolding is_found
  repto_known r = if str_eq r [] then pure true else do i ← lookup sha256 r; pure (is_found i)

  unfoldable pub decoded_msg : Edb Regex → Udb Regex → Bytes → Result MsgError Msg → Exec Answer
  unfolding as_user repto_known
  decoded_msg edb udb pauth (err e) = pure (wrong_line e)
  decoded_msg edb udb pauth (ok m) = do
    known ← repto_known (get_or_empty m.tags (codes "repto"))
    if known then as_user edb udb pauth m (user_info udb pauth) else pure unknown_repto

  -- PointMsg behind LoadUsers
  unfoldable pub answer_point : Edb Regex → Udb Regex → Bytes → Bytes → Exec Answer
  unfolding decoded_msg
  answer_point edb udb pauth tmsg =
      if has_secret udb pauth
      then decoded_msg edb udb pauth (decode_msgline now tmsg true)
      else pure access_denied

  module _ (compile : Bytes → Option Regex) where
    users_loaded :
        Edb Regex
        → Bytes
        → Bytes
        → Result Panic (Unit {0}) × Udb Regex
        → Db
        → (Result Panic Answer × Db) × Udb Regex
    users_loaded edb pauth tmsg (err p, udb) db = ((err p, db), udb)
    users_loaded edb pauth tmsg (ok t, udb) db = (answer_point edb udb pauth tmsg db, udb)

    -- PointMsg
    unfoldable pub point_msg :
        Edb Regex → Bytes → Bytes → Udb Regex → Db → (Result Panic Answer × Db) × Udb Regex
    unfolding users_loaded
    point_msg edb pauth tmsg udb db = users_loaded edb pauth tmsg (load_users compile udb) db
