-- ===== src/Node/Points/Posting.antt =====
-- PointMsg stores what it should: the message of a user that is not watched, in an area that lets it in.
use mathlib.Core.Option
use mathlib.Core.Path.{subst}
use ii_go.Base.{
  if◌then◌else◌, length, Bytes, codes, str_eq, str_eq_iff, ℤ, pos, same_int, ok, ℕ, ◌^◌, ◌<◌, ◌≡◌,
  refl, sym, ap, ◌∙◌, ◌⊎◌, inl, inr, Bool, true, false, ◌&&◌, not, Option, none, some, List, [],
  ◌∷◌, ◌++◌, arith,
}
use ii_go.Msg.Tags.{get_or_empty}
use ii_go.Msg.Encode.{Msg, encode}
use ii_go.Msg.RoundTrip.{IsStorable, bundle_line, encode-IsStorable}
use ii_go.Msg.Line.{decode_msgline}
use ii_go.Db.State.{Db, ◌>>=◌, pure, gets}
use ii_go.Db.State.Ends.{Ends, Ends-pure, Ends-gets, Ends-bind, Ends-if, Ends-known}
use ii_go.Db.Access.{lookup, store}
use ii_go.Db.Log.{IsIndexable, bundle_text, IsSynced, latest, is_stored}
use ii_go.Db.Log.Get.{columns, shows, entry_at}
use ii_go.Db.Log.Fast.{unnamed-absent}
use ii_go.Db.Log.Keeps.{Synced, Found, Ends-lookup_with}
use ii_go.Users.{User}
use ii_go.Users.Policy.{Udb}
use ii_go.Users.Account.{has_secret, user_info}
use ii_go.Echoes.{Edb, edb_access}
use ii_go.Node.Points.{
  is_watched, point_policy, Answer, msg_ok, unknown_repto, stored_answer, store_allowed, signed,
  as_user, is_found, repto_known, decoded_msg, answer_point, point_msg,
}
use ii_go.Node.Points.Laws.{HasRights}
use ii_go.Msg.Line.Sound.{decode_msgline-IsPosted}
use ii_go.Db.Log.Store.{store_with-encode}
use ii_go.Db.Index.{MsgInfo}
use ii_go.Users.Load.{load_users}

parent_shown : {P : Type 0} (r : Bytes) → (r ≡ []) ⊎ P → str_eq r [] ≡ false → P
parent_shown r (inl e) n = absurd (ground (arith, str_eq_iff r []))
parent_shown r (inr p) n = p

module _ (sha256 : Bytes → Bytes) (log : List Msg) (name : Bytes) {Regex : Type 0} (now : ℤ)
    (matches : Regex → Bytes → Bool) (edb : Edb Regex) (udb : Udb Regex) (pauth tmsg : Bytes) where
  -- A message that may be posted, and the one that Encode makes of it.
  pub record IsGood (m : Msg) (u : User) (m' : Msg) : Type 0 where
    pub known : has_secret udb pauth ≡ true
    pub user_known : user_info udb pauth ≡ some u
    pub line : decode_msgline now tmsg true ≡ ok m
    pub parent :
        (get_or_empty m.tags (codes "repto") ≡ [])
        ⊎ (is_stored (shows false (latest (get_or_empty m.tags (codes "repto")) 0 log)) ≡ true)
    pub unwatched : is_watched u ≡ false
    pub rights :
        HasRights sha256 log name now matches edb udb pauth tmsg
          (signed sha256 now matches m u udb pauth name)
          u
    pub encoded : (encode sha256 now (signed sha256 now matches m u udb pauth name)).1 ≡ m'
    pub indexable : IsIndexable m'
    pub fits : length (bundle_text (log ++ m' ∷ [])) < 2 ^ 63

  module _ (m : Msg) (u : User) (m' : Msg) (good : IsGood m u m') where
    abbrev pub Posted : Answer → Db → Type 0
    Posted a db = (a ≡ msg_ok) × IsSynced db (log ++ m' ∷ [])

    found :
        (i : Option MsgInfo) (r : Option (ℕ × Msg))
        → Option.map columns i ≡ Option.map entry_at r
        → is_stored r ≡ true
        → is_found sha256 now matches i ≡ true
    unfolding is_found
    found (some i) r e h = refl
    found none none e h = h
    found none (some r) e h = cc

    abbrev mine : Msg
    mine = signed sha256 now matches m u udb pauth name

    encode-mine : encode sha256 now mine ≡ (bundle_line m', m')
    encode-mine =
        encode-IsStorable sha256 now mine
          (subst IsStorable (sym good.encoded) good.indexable.storable)
        ∙ ap (λ x. (bundle_line x, x)) good.encoded

    mine_unnamed : mine.msg_id ≡ []
    unfolding signed
    mine_unnamed = ((decode_msgline-IsPosted now tmsg true good.line).0).unnamed

    Ends-store :
        Ends
          (Synced log name)
          (store sha256 now mine)
          (λ r db. IsSynced db (log ++ m' ∷ []) × (r ≡ none))
    unfolding store
    Ends-store = record {
      at = λ db (s, n).
          let absent : is_stored (latest mine.msg_id 0 log) ≡ false =
            ap (λ id. is_stored (latest id 0 log)) mine_unnamed
            ∙ ap is_stored (unnamed-absent log 0 s.indexable) in
          let (e, left) =
            store_with-encode sha256 now db log mine m' false s encode-mine good.indexable
              good.fits in
          (none, rw absent at e, (rw absent at left, refl));
    }

    Ends-store_allowed :
        Ends (Synced log name) (store_allowed sha256 now matches edb u mine true) Posted
    unfolding store_allowed stored_answer
    Ends-store_allowed =
        Ends-if (Synced log name) Posted
          (not (edb_access matches edb mine) && not (same_int u.id (pos 1))) _ _
          (λ denied. absurd (elim good.rights [ inl a ↦ ground arith | inr s ↦ ground arith ]))
          (λ granted.
            Ends-bind (Synced log name) _ Posted (store sha256 now mine) _ Ends-store (λ r.
              Ends-known (λ o. pure (stored_answer sha256 now matches o)) none r
                (Ends-pure (λ db. IsSynced db (log ++ m' ∷ [])) Posted msg_ok (λ db s. (refl, s)))))

    Ends-policy :
        Ends
          (Synced log name)
          (point_policy sha256 u mine)
          (λ g db. Synced log name db × (g ≡ true))
    unfolding point_policy
    Ends-policy = rw good.unwatched (Ends-pure (Synced log name) _ true (λ db s. (s, refl)))

    Ends-as_user :
        Ends (Synced log name) (as_user sha256 now matches edb udb pauth m (some u)) Posted
    unfolding as_user
    Ends-as_user =
        let rest = λ (node : Bytes).
          point_policy sha256 u (signed sha256 now matches m u udb pauth node)
          >>= store_allowed sha256 now matches edb u
              (signed sha256 now matches m u udb pauth node) in
        Ends-bind (Synced log name) (λ node db. Synced log name db × (node ≡ name)) Posted
          (gets (λ db. db.name)) rest
          (Ends-gets (Synced log name) _ (λ db. db.name) (λ db s. (s, s.1)))
          (λ node. Ends-known rest name node (
            Ends-bind (Synced log name) (λ g db. Synced log name db × (g ≡ true)) Posted _ _
              Ends-policy
              (λ g.
                Ends-known (store_allowed sha256 now matches edb u mine) true g
                  Ends-store_allowed)))

    Ends-repto_known :
        (r : Bytes)
        → (r ≡ []) ⊎ (is_stored (shows false (latest r 0 log)) ≡ true)
        → Ends
            (Synced log name)
            (repto_known sha256 now matches r)
            (λ b db. Synced log name db × (b ≡ true))
    unfolding repto_known
    Ends-repto_known r h =
        Ends-if (Synced log name) _ (str_eq r []) _ _
          (λ e. Ends-pure (Synced log name) _ true (λ db s. (s, refl)))
          (λ n.
            let shown = parent_shown r h n in
            Ends-bind (Synced log name) (λ i db. Synced log name db × Found log r false i) _
              (lookup sha256 r) _ (unfold lookup in Ends-lookup_with sha256 log name r false)
              (λ i.
                Ends-pure _ _ (is_found sha256 now matches i) (λ db f. (f.0, found i _ f.1 shown))))

    Ends-answer_point :
        Ends (Synced log name) (answer_point sha256 now matches edb udb pauth tmsg) Posted
    unfolding answer_point decoded_msg
    Ends-answer_point =
        rw (good.known, good.line, good.user_known)
          (Ends-bind (Synced log name) (λ b db. Synced log name db × (b ≡ true)) Posted _ _
            (Ends-repto_known (get_or_empty m.tags (codes "repto")) good.parent)
            (λ known.
              Ends-known
                (λ b.
                  if b
                  then as_user sha256 now matches edb udb pauth m (some u)
                  else pure unknown_repto)
                true known Ends-as_user))

    -- On files that hold a log PointMsg answers "msg ok" and puts the message, signed with the name of the
    -- user and encoded, at the end of the log, if the secret is that of a user who is neither new nor
    -- moderated, the line is decoded, the parent is none or shown, the area lets the message in or the
    -- user is the superuser, and the message can be indexed and fits.
    pub point_msg-IsGood :
        (compile : Bytes → Option Regex) (old : Udb Regex) (db : Db)
        → load_users compile old ≡ (ok tt, udb)
        → Synced log name db
        → (a : Answer) × ((point_msg sha256 now matches compile edb pauth tmsg old db).0.0 ≡ ok a)
          × Posted a (point_msg sha256 now matches compile edb pauth tmsg old db).0.1
    unfolding point_msg
    point_msg-IsGood compile old db e s = rw e (Ends-answer_point.at db s)
