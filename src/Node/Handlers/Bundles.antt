-- ===== src/Node/Handlers/Bundles.antt =====
-- ii-node/main.go: the messages that /u/m/ and /u/point/pauth/u/m/ hand out of files that hold a log.
use mathlib.Core.Option
use ii_go.Base.{
  if◌then◌else◌, Bool-cases, Bytes, codes, str_eq, str_eq_refl, ℤ, ok, ℕ, ◌≡◌, refl, sym, ap, ◌⊎◌,
  inl, inr, Bool, false, ◌&&◌, ◌||◌, not, Option, none, some, List, [], ◌∷◌, ◌++◌,
}
use ii_go.Msg.Valid.{is_private}
use ii_go.Msg.Encode.{Msg}
use ii_go.Msg.RoundTrip.{bundle_line}
use ii_go.Db.Index.{MsgInfo, Entry}
use ii_go.Db.State.{Db}
use ii_go.Db.State.Ends.{Ends, Ends-pure, Ends-bind, Ends-given}
use ii_go.Db.State.Files.{text_of, text_of-append}
use ii_go.Db.Load.{entry_of}
use ii_go.Db.Access.{get_bundle_info}
use ii_go.Db.Query.{access, ids}
use ii_go.Db.Log.{latest}
use ii_go.Db.Log.Get.{columns, shows, entry_at, shown_line, bundle_line-ne-nil}
use ii_go.Db.Log.Keeps.{Synced}
use ii_go.Db.Log.Bundle.{Ends-get_bundle_info}
use ii_go.Node.Handlers.{
  text, path_args, write_bundle, write_bundles, u_m, as_point, asked, point_args, users_read,
  point_get,
}
use ii_go.Users.Account.{has_secret, user_info}
use ii_go.Users.Policy.{Udb}
use ii_go.Echoes.{Edb}
use ii_go.Users.{User}
use ii_go.Users.Load.{load_users}

-- Who may read a message: all if its area is not private, else a user with a name, if it is to All, from
-- the user or to the user.
unfoldable pub readable : Bytes → Msg → Bool
readable user m =
    not (is_private m.echo)
    || (not (str_eq user [])
        && (str_eq m.to (codes "All") || str_eq m.from user || str_eq m.to user))

module _ (i : MsgInfo) (o : ℕ) (m : Msg) (e : columns i ≡ entry_at (o, m)) where
  same_echo : i.echo ≡ m.echo
  unfolding entry_of
  same_echo = ap (λ (x : Entry). x.echo) e

  same_to : i.to ≡ m.to
  unfolding entry_of
  same_to = ap (λ (x : Entry). x.to) e

  same_from : i.from ≡ m.from
  unfolding entry_of
  same_from = ap (λ (x : Entry). x.from) e

pub access-readable :
    (user : Bytes) (i : MsgInfo) (o : ℕ) (m : Msg)
    → columns i ≡ entry_at (o, m)
    → access i user ≡ readable user m
unfolding access readable
access-readable user i o m e = rw (same_echo i o m e, same_to i o m e, same_from i o m e)

module _ (sha256 : Bytes → Bytes) (log : List Msg) (name : Bytes) where
  -- The lines of the last messages with the ids, but for those that are hidden and those that may
  -- not be seen.
  abbrev pub seen_line : (Msg → Bool) → Option (ℕ × Msg) → List Bytes
  seen_line see none = []
  seen_line see (some (o, m)) = if see m then bundle_line m ∷ [] else []

  abbrev pub seen_lines : (Msg → Bool) → List Bytes → List Bytes
  seen_lines see [] = []
  seen_lines see (id ∷ ids) = seen_line see (shows false (latest id 0 log)) ++ seen_lines see ids

  module _ (test : MsgInfo → Bool) (see : Msg → Bool)
      (same : (i : MsgInfo) (o : ℕ) (m : Msg) → columns i ≡ entry_at (o, m) → test i ≡ see m) where
    write_bundle-seen :
        (line : Bytes) (i : Option MsgInfo) (q : Option (ℕ × Msg)) (db : Db)
        → line ≡ shown_line sha256 q
        → (line ≡ []) ⊎ (Option.map columns i ≡ Option.map entry_at q)
        → write_bundle test (line, i) db ≡ (ok (text_of (seen_line see q)), db)
    unfolding write_bundle shown_line text_of
    write_bundle-seen line i none db e h = rw (e, str_eq_refl [])
    write_bundle-seen line i (some (o, m)) db e (inl empty) =
        absurd (cc (e, empty, bundle_line-ne-nil sha256 m, str_eq_refl []))
    write_bundle-seen line none (some (o, m)) db e (inr h) = cc
    write_bundle-seen line (some i) (some (o, m)) db e (inr h) =
        rw (e, bundle_line-ne-nil sha256 m, same i o m (cc h))
          (elim (Bool-cases (see m)) [ inl e ↦ rw e | inr e ↦ rw e ])

    Ends-write_bundles :
        (ids : List Bytes)
        → Ends
            (Synced log name)
            (write_bundles sha256 test ids)
            (λ t db. Synced log name db × (t ≡ text_of (seen_lines see ids)))
    unfolding write_bundles text_of
    Ends-write_bundles [] = Ends-pure _ _ [] (λ db s. (s, refl))
    Ends-write_bundles (id ∷ ids) =
        let q = shows false (latest id 0 log) in
        let line = text_of (seen_line see q) in
        Ends-bind (Synced log name) _ _ (get_bundle_info sha256 id) _
          (Ends-get_bundle_info sha256 log name id)
          (λ r.
            Ends-bind _ (λ l db. Synced log name db × (l ≡ line)) _ (write_bundle test r) _
              (record {
                at = λ db (s, b).
                    rw (write_bundle-seen r.0 r.1 q db b.0 b.1) (line, refl, (s, refl));
              })
              (λ l. Ends-given (l ≡ line) (λ e.
                Ends-bind (Synced log name) _ _ (write_bundles sha256 test ids) _
                  (Ends-write_bundles ids)
                  (λ rest. Ends-pure _ _ (l ++ rest) (λ db (s, f). (
                    s,
                    rw (e, f) (sym (text_of-append (seen_line see q) (seen_lines see ids))),
                  ))))))

  -- The handler /u/m/ on files that hold a log ends without a fault, leaves the log, and writes for each
  -- id of the path, in their order, the line of the last message stored with it, unless that one is
  -- hidden (blacklisted, and not at offset 0 of the bundle file) or its area is private.
  pub u_m-IsSynced :
      (path : Bytes) (db : Db)
      → Synced log name db
      → (t : Bytes) × ((u_m sha256 path db).0 ≡ ok t)
        × Synced log name (u_m sha256 path db).1
        × (t ≡ text_of (seen_lines (λ m. not (is_private m.echo)) (path_args 5 path)))
  unfolding u_m
  u_m-IsSynced path db s =
      let (t, e, (kept, same)) =
        (Ends-write_bundles (λ i. not (is_private i.echo)) (λ m. not (is_private m.echo))
            (λ i o m h. ap not (ap is_private (same_echo i o m h))) (path_args 5 path)).at
          db s in
      (t, e, kept, same)

  pub Ends-mail :
      (user : Bytes) (ids : List Bytes)
      → Ends
          (Synced log name)
          (write_bundles sha256 (λ i. access i user) ids)
          (λ t db. Synced log name db × (t ≡ text_of (seen_lines (readable user) ids)))
  Ends-mail user ids =
      Ends-write_bundles (λ i. access i user) (readable user) (access-readable user) ids

  -- What a point may read of the messages that it asks for.
  abbrev pub mail : {Regex : Type 0} → Udb Regex → Bytes → List Bytes → Bytes
  mail udb pauth ids =
      if has_secret udb pauth
      then elim (user_info udb pauth) [
        | none ↦ []
        | some u ↦ text_of (seen_lines (readable u.name) ids)
      ]
      else []

  module _ (scan_range : Bytes → Option (ℤ × ℤ)) where
    Ends-as_point :
        (o : Option User) (ids : List Bytes)
        → Ends (Synced log name) (as_point sha256 scan_range (codes "m") ids o) (λ t db.
          Synced log name db
          × (t ≡ elim o [ none ↦ [] | some u ↦ text_of (seen_lines (readable u.name) ids) ]))
    unfolding as_point str_eq
    Ends-as_point none ids = Ends-pure _ _ [] (λ db s. (s, refl))
    Ends-as_point (some u) ids = Ends-mail u.name ids

    module _ {Regex : Type 0} (now : ℤ) (matches : Regex → Bytes → Bool)
        (compile : Bytes → Option Regex) (edb : Edb Regex) (pauth : Bytes) (ids : List Bytes) where
      Ends-asked :
          (udb : Udb Regex)
          → Ends
              (Synced log name)
              (asked sha256 scan_range now matches compile edb pauth (codes "m") ids udb)
              (λ t db. Synced log name db × (t ≡ text (mail udb pauth ids)))
      unfolding asked
      Ends-asked udb = elim (Bool-cases (has_secret udb pauth)) [
        | inl e ↦
            rw (asked, e)
              (Ends-bind (Synced log name) _ _ _ _ (Ends-as_point (user_info udb pauth) ids)
                (λ t. Ends-pure _ _ (text t) (λ db (s, same). (s, ap text same))))
        | inr e ↦ rw (asked, e) (Ends-pure _ _ (text []) (λ db s. (s, refl)))
      ]

      -- A point's request /u/point/pauth/u/m/… on files that hold a log, after LoadUsers went through, ends
      -- without a fault and leaves the log. A secret that no user has gets nothing; a user gets for each
      -- id, in their order, the line of the last message stored with it, unless that one is hidden
      -- (blacklisted, and not at offset 0 of the bundle file) or is one in a private area that is neither to All nor from or to that user.
      pub point_get-mail :
          (path : Bytes) (udb udb' : Udb Regex) (db : Db)
          → path_args 9 path ≡ pauth ∷ codes "u" ∷ codes "m" ∷ ids
          → load_users compile udb ≡ (ok tt, udb')
          → Synced log name db
          → ((point_get sha256 scan_range now matches compile edb path udb db).0.0
              ≡ ok (text (mail udb' pauth ids)))
            × Synced log name (point_get sha256 scan_range now matches compile edb path udb db).0.1
      unfolding point_get users_read point_args str_eq
      point_get-mail path udb udb' db args loaded s =
          let (t, e, (kept, same)) = (Ends-asked udb').at db s in
          rw (args, loaded) (rw (e, same) (refl, kept))
