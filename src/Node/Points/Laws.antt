-- ===== src/Node/Points/Laws.antt =====
-- PointMsg on files that hold a log: who may post, and what a posted message changes.
use ii_go.Base.{
  Bool-cases, Bytes, codes, str_eq, ℤ, pos, same_int, Result, ok, err, ◌≡◌, refl, ◌∙◌, ◌≢◌, ◌⊎◌,
  inl, inr, Bool, true, false, ◌&&◌, not, Option, none, some, List, [], arith,
}
use ii_go.Msg.Encode.{Msg}
use ii_go.Msg.Line.{decode_msgline}
use ii_go.Db.State.{Db, ◌>>=◌, pure, gets}
use ii_go.Db.State.Ends.{Ends, Ends-pure, Ends-gets, Ends-bind, Ends-if, Ends-imp, Ends-known}
use ii_go.Db.Access.{StoreError, lookup, lookup_ids, store}
use ii_go.Db.Log.Keeps.{Synced, Ends-lookup_with, Ends-lookup_ids}
use ii_go.Db.Log.Rows.{Ends-select_ids}
use ii_go.Users.{User}
use ii_go.Users.Policy.{Udb}
use ii_go.Users.Load.{load_users}
use ii_go.Users.Account.{has_secret, user_info}
use ii_go.Echoes.{Edb, allowed, edb_access}
use ii_go.Node.Points.{
  limit_of, is_watched, count_posts, point_policy, Answer, msg_ok, access_denied, unknown_repto,
  no_user_info, not_verified, wrong_line, not_stored, stored_answer, store_allowed, signed, as_user,
  repto_known, decoded_msg, answer_point, point_msg,
}
use ii_go.Db.Log.Names.{name-store_with}
use ii_go.Db.Log.Store.{store_with-refused}
use ii_go.Msg.Tags.{get_or_empty}
use ii_go.Msg.Decode.{MsgError}

module _ (sha256 : Bytes → Bytes) (log : List Msg) (name : Bytes) where
  Ends-count_posts :
      (from : Bytes) (lim : ℤ)
      → Ends (Synced log name) (count_posts sha256 from lim) (λ b. Synced log name)
  unfolding count_posts
  Ends-count_posts from lim =
      Ends-bind (Synced log name) (λ l. Synced log name) (λ b. Synced log name) _ _
        (Ends-imp (λ l db s. s.0) (Ends-select_ids sha256 none log name _))
        (λ l.
          Ends-bind (Synced log name) (λ i. Synced log name) (λ b. Synced log name)
            (lookup_ids sha256 l) _ (Ends-lookup_ids sha256 log name l)
            (λ infos. Ends-pure (Synced log name) (λ b. Synced log name) _ (λ db s. s)))

  pub Ends-point_policy :
      (u : User) (m : Msg) → Ends (Synced log name) (point_policy sha256 u m) (λ b. Synced log name)
  unfolding point_policy
  Ends-point_policy u m =
      Ends-if (Synced log name) (λ b. Synced log name) (is_watched u) _ _
        (λ e. Ends-count_posts m.from (limit_of u))
        (λ e. Ends-pure (Synced log name) (λ b. Synced log name) true (λ db s. s))

  module _ {Regex : Type 0} (now : ℤ) (matches : Regex → Bytes → Bool) (edb : Edb Regex)
      (udb : Udb Regex) (pauth tmsg : Bytes) where
    -- The author may write in the area of the message, or is the superuser.
    abbrev pub HasRights : Msg → User → Type 0
    HasRights m u = (edb_access matches edb m ≡ true) ⊎ (same_int u.id (pos 1) ≡ true)

    HasRights-of :
        (m : Msg) (u : User)
        → (not (edb_access matches edb m) && not (same_int u.id (pos 1))) ≡ false
        → HasRights m u
    HasRights-of m u h = elim (Bool-cases (edb_access matches edb m)) [
      | inl yes_access ↦ inl yes_access
      | inr denied ↦ inr (ground arith)
    ]

    -- What it takes to post.
    pub record IsAllowed : Type 0 where
      pub known : has_secret udb pauth ≡ true
      pub user : User
      pub user_known : user_info udb pauth ≡ some user
      pub msg : Msg
      pub line : decode_msgline now tmsg true ≡ ok msg
      pub rights : HasRights (signed sha256 now matches msg user udb pauth name) user

    -- Store gave no error, or left the log.
    abbrev Stored : Option StoreError → Db → Type 0
    Stored r db = Synced log name db ⊎ (r ≡ none)

    Ends-store : (m : Msg) → Ends (Synced log name) (store sha256 now m) Stored
    unfolding store
    Ends-store m = record {
      at = λ db (s, n).
          let (r, e, left) = store_with-refused sha256 now db log m false s in
          (
            r,
            e,
            elim left [
              | inl written ↦ inr written
              | inr kept ↦ inl (kept, name-store_with sha256 now m false db ∙ n)
            ],
          );
    }

    -- An answer other than "msg ok", with the log as it was; or "msg ok" to what is allowed.
    abbrev pub Answered : Answer → Db → Type 0
    Answered a db = ((a ≢ msg_ok) × Synced log name db) ⊎ ((a ≡ msg_ok) × IsAllowed)

    refused : (a : Answer) → a ≢ msg_ok → Ends (Synced log name) (pure a) Answered
    refused a other = Ends-pure (Synced log name) Answered a (λ db s. inl (other, s))

    answered :
        IsAllowed
        → (r : Option StoreError)
        → Ends (Stored r) (pure (stored_answer sha256 now matches r)) Answered
    unfolding stored_answer
    answered allowed none = Ends-pure _ Answered msg_ok (λ db h. inr (refl, allowed))
    answered allowed (some e) =
        Ends-pure _ Answered (not_stored e)
          (λ db h. elim h [ inl s ↦ inl (λ x. cc x, s) | inr n ↦ cc ])

    Ends-store_allowed :
        (u : User) (m : Msg) (good : Bool)
        → has_secret udb pauth ≡ true
        → user_info udb pauth ≡ some u
        → decode_msgline now tmsg true ≡ ok m
        → Ends
            (Synced log name)
            (store_allowed sha256 now matches edb u
              (signed sha256 now matches m u udb pauth name)
              good)
            Answered
    unfolding store_allowed store stored_answer
    Ends-store_allowed u m false k e l = refused not_verified (λ x. cc x)
    Ends-store_allowed u m true k e l =
        let s = signed sha256 now matches m u udb pauth name in
        Ends-if (Synced log name) Answered
          (not (edb_access matches edb s) && not (same_int u.id (pos 1))) _ _
          (λ denied. refused access_denied (λ x. cc x))
          (λ granted.
            let allowed : IsAllowed = record {
              known = k;
              user = u;
              user_known = e;
              msg = m;
              line = l;
              rights = HasRights-of s u granted;
            } in
            Ends-bind (Synced log name) Stored Answered (store sha256 now s) _ (Ends-store s)
              (λ r. answered allowed r))

    Ends-as_user :
        (m : Msg) (o : Option User)
        → has_secret udb pauth ≡ true
        → user_info udb pauth ≡ o
        → decode_msgline now tmsg true ≡ ok m
        → Ends (Synced log name) (as_user sha256 now matches edb udb pauth m o) Answered
    unfolding as_user
    Ends-as_user m none k e l = refused no_user_info (λ x. cc x)
    Ends-as_user m (some u) k e l =
        let rest = λ (node : Bytes).
          point_policy sha256 u (signed sha256 now matches m u udb pauth node)
          >>= store_allowed sha256 now matches edb u
              (signed sha256 now matches m u udb pauth node) in
        Ends-bind (Synced log name) (λ node db. Synced log name db × (node ≡ name)) Answered
          (gets (λ db. db.name)) rest
          (Ends-gets (Synced log name) _ (λ db. db.name) (λ db s. (s, s.1)))
          (λ node. Ends-known rest name node (
            Ends-bind (Synced log name) (λ good. Synced log name) Answered _ _
              (Ends-point_policy u (signed sha256 now matches m u udb pauth name))
              (λ good. Ends-store_allowed u m good k e l)))

    Ends-repto_known :
        (r : Bytes)
        → Ends (Synced log name) (repto_known sha256 now matches r) (λ b. Synced log name)
    unfolding repto_known
    Ends-repto_known r =
        Ends-if (Synced log name) (λ b. Synced log name) (str_eq r []) _ _
          (λ e. Ends-pure (Synced log name) (λ b. Synced log name) true (λ db s. s))
          (λ e.
            Ends-bind (Synced log name) (λ i. Synced log name) (λ b. Synced log name)
              (lookup sha256 r) _
              (unfold lookup in Ends-imp (λ i db f. f.0) (Ends-lookup_with sha256 log name r false))
              (λ i. Ends-pure (Synced log name) (λ b. Synced log name) _ (λ db s. s)))

    Ends-decoded_msg :
        (o : Result MsgError Msg)
        → has_secret udb pauth ≡ true
        → decode_msgline now tmsg true ≡ o
        → Ends (Synced log name) (decoded_msg sha256 now matches edb udb pauth o) Answered
    unfolding decoded_msg
    Ends-decoded_msg (err e) k l = refused (wrong_line e) (λ x. cc x)
    Ends-decoded_msg (ok m) k l =
        Ends-bind (Synced log name) (λ b. Synced log name) Answered
          (repto_known sha256 now matches (get_or_empty m.tags (codes "repto"))) _
          (Ends-repto_known (get_or_empty m.tags (codes "repto")))
          (λ known.
            Ends-if (Synced log name) Answered known _ _
              (λ e. Ends-as_user m (user_info udb pauth) k refl l)
              (λ e. refused unknown_repto (λ x. cc x)))

    Ends-answer_point :
        Ends (Synced log name) (answer_point sha256 now matches edb udb pauth tmsg) Answered
    unfolding answer_point
    Ends-answer_point =
        Ends-if (Synced log name) Answered (has_secret udb pauth) _ _
          (λ k. Ends-decoded_msg (decode_msgline now tmsg true) k refl)
          (λ e. refused access_denied (λ x. cc x))

    -- On files that hold a log PointMsg, once the users are loaded, gives an answer. Every answer but "msg ok"
    -- leaves the log as it is; "msg ok" is given only if the secret is that of a user, the line was decoded,
    -- and the area lets the signed message in or the user is the superuser.
    pub point_msg-IsAllowed :
        (compile : Bytes → Option Regex) (old : Udb Regex) (db : Db)
        → load_users compile old ≡ (ok tt, udb)
        → Synced log name db
        → (a : Answer) × ((point_msg sha256 now matches compile edb pauth tmsg old db).0.0 ≡ ok a)
          × Answered a (point_msg sha256 now matches compile edb pauth tmsg old db).0.1
    unfolding point_msg
    point_msg-IsAllowed compile old db e s = rw e (Ends-answer_point.at db s)
