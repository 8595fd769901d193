-- ===== src/Node/Handlers/Lists.antt =====
-- ii-node/main.go: the ids that /u/e/, /e/ and /u/point/pauth/u/e/ list from files that hold a log.
use mathlib.Core.Option
use mathlib.Core.Path.{subst}
use ii_go.Base.{
  Bool-cases, All, All-append, All-imp, Bytes, ℤ, pos, is_neg, ok, ℕ, ◌≡◌, refl, sym, ap, ◌∙◌, ◌⊎◌,
  inl, inr, true, false, Option, none, some, List, [], ◌∷◌, ◌++◌, arith,
}
use ii_go.Msg.Valid.{is_echo}
use ii_go.Msg.Encode.{Msg}
use ii_go.Db.Index.{MsgInfo, Entry}
use ii_go.Db.State.{Db}
use ii_go.Db.State.Ends.{Ends, Ends-pure, Ends-bind, Ends-given}
use ii_go.Db.State.Files.{text_of}
use ii_go.Db.Load.{entry_of}
use ii_go.Db.Query.{Query, access, fits, ids}
use ii_go.Db.Query.Selected.{select_rows-All}
use ii_go.Db.Log.{latest}
use ii_go.Db.Log.Get.{is_hidden, is_neg-signed_offset, columns, shows, entry_at}
use ii_go.Db.Log.Keeps.{Synced}
use ii_go.Db.Log.Rows.{IsRow, Selects, Ends-select_ids}
use ii_go.Users.{User}
use ii_go.Node.Points.{any_query, area_ids}
use ii_go.Node.Handlers.{split_last, ranged, get_ue}
use ii_go.Node.Handlers.Bundles.{readable, access-readable}

-- A query that asks for messages that show and that its user may read, for all of them.
pub record IsOpenQuery (q : Query) : Type 0 where
  pub access_asked : q.no_access ≡ false
  pub no_blacklist : q.blacklisted ≡ false
  pub not_inverted : q.invert ≡ false
  pub no_skip : q.skip ≡ pos 0
  pub no_count : q.count ≡ pos 0

module _ (sha256 : Bytes → Bytes) (log : List Msg) (name : Bytes) where
  -- The id of a message that is shown and that the user may read.
  abbrev pub IsReadable : Bytes → Bytes → Type 0
  IsReadable user id =
      (o : ℕ) × (m : Msg) × (shows false (latest id 0 log) ≡ some (o, m)) × (readable user m ≡ true)

  -- What the filters of get_ue let pass.
  abbrev listing_of : Bytes → ℤ → ℤ → Bytes → Query
  listing_of e idx lim user = record any_query { echo = e; start = idx; lim = lim; user = user }

  fits-ask :
      (q : Query) (info : MsgInfo)
      → IsOpenQuery q
      → fits q info ≡ true
      → (is_neg info.off ≡ false) × (access info q.user ≡ true)
  unfolding fits
  fits-ask q info o f =
      (ground (arith, o.access_asked, o.no_blacklist), ground (arith, o.access_asked))

  row-IsReadable :
      (q : Query) (id : Bytes) (info : MsgInfo) (r : Option (ℕ × Msg))
      → IsOpenQuery q
      → latest id 0 log ≡ r
      → Option.map entry_at r ≡ some (columns info)
      → fits q info ≡ true
      → IsReadable q.user id
  unfolding shows entry_of
  row-IsReadable q id info none ask l h f = cc
  row-IsReadable q id info (some (o, m)) ask l h f =
      let (up, may) = fits-ask q info ask f in
      let same : columns info ≡ entry_at (o, m) = cc h in
      let off : is_hidden m o ≡ false =
        sym (is_neg-signed_offset m o) ∙ sym (ap (λ (x : Entry). is_neg x.off) same) ∙ up in
      (o, m, rw (l, off), sym (access-readable q.user info o m same) ∙ may)

  -- Every id that such a query returns is of a message that shows and that its user may read.
  pub selected-IsReadable :
      (q : Query) (ids : List Bytes)
      → IsOpenQuery q
      → Selects sha256 none log q ids
      → All (IsReadable q.user) ids
  selected-IsReadable q ids ask (rows, found, listed, rs) =
      subst (All (IsReadable q.user)) (sym found) (
        select_rows-All (IsReadable q.user) q rows (ask.not_inverted) (ask.no_skip) (ask.no_count) (
          All-imp (IsRow log) _ (λ (id, info) row f. row-IsReadable q id info _ ask refl row f) rows
            rs))

  open_listing : (e : Bytes) (idx lim : ℤ) (user : Bytes) → IsOpenQuery (listing_of e idx lim user)
  open_listing e idx lim user = record {
    access_asked = refl;
    no_blacklist = refl;
    not_inverted = refl;
    no_skip = refl;
    no_count = refl;
  }

  -- A line that is the name of an area that was asked for, or the id of a message that the user may read.
  abbrev pub IsListed : Bytes → Bytes → Type 0
  IsListed user line = (is_echo line ≡ true) ⊎ IsReadable user line

  Ends-area_ids :
      (idx lim : ℤ) (u : User) (areas : List Bytes)
      → Ends
          (Synced log name)
          (area_ids sha256 idx lim u areas)
          (λ l db. Synced log name db × All (IsListed u.name) l)
  unfolding area_ids
  Ends-area_ids idx lim u [] = Ends-pure _ _ [] (λ db s. (s, tt))
  Ends-area_ids idx lim u (e ∷ areas) = elim (Bool-cases (is_echo e)) [
    | inr bad ↦ rw (area_ids, bad) (Ends-area_ids idx lim u areas)
    | inl echo ↦
        rw (area_ids, echo)
          (Ends-bind (Synced log name) _ _ _ _
            (Ends-select_ids sha256 none log name (listing_of e idx lim u.name))
            (λ ids. Ends-given _ (λ sel.
              Ends-bind (Synced log name) _ _ _ _ (Ends-area_ids idx lim u areas) (λ more.
                Ends-pure _ _ ((e ∷ ids) ++ more) (λ db (s, h). (
                  s,
                  (
                    inl echo,
                    All-append (IsListed u.name) ids more
                        (All-imp (IsReadable u.name) (IsListed u.name) (λ id r. inr r) ids
                          (selected-IsReadable (listing_of e idx lim u.name) ids
                            (open_listing e idx lim u.name) sel))
                        h,
                  ),
                ))))))
  ]

  module _ (scan_range : Bytes → Option (ℤ × ℤ)) where
    Ends-ranged :
        (u : User) (areas others : List Bytes) (o : Option (ℤ × ℤ))
        → Ends
            (Synced log name)
            (ranged sha256 scan_range u areas others o)
            (λ l db. Synced log name db × All (IsListed u.name) l)
    unfolding ranged
    Ends-ranged u areas others none = Ends-area_ids (pos 0) (pos 0) u areas
    Ends-ranged u areas others (some (idx, lim)) = Ends-area_ids idx lim u others

    -- Whatever range a point asks for, get_ue on files that hold a log ends without a fault and leaves the
    -- log, and every line that it writes is the name of an area or the id of a message that is not
    -- hidden (blacklisted, and not at offset 0 of the bundle file) and that the user may read: for /u/e/, whose user has no name, one in an area that is
    -- not private.
    pub get_ue-IsListed :
        (u : User) (areas : List Bytes) (db : Db)
        → Synced log name db
        → (l : List Bytes) × ((get_ue sha256 scan_range u areas db).0 ≡ ok (text_of l))
          × Synced log name (get_ue sha256 scan_range u areas db).1
          × All (IsListed u.name) l
    unfolding get_ue
    get_ue-IsListed u [] db s = ([], unfold text_of in refl, s, tt)
    get_ue-IsListed u (e ∷ areas) db s =
        let (others, last) = split_last e areas in
        let (l, e', (kept, all)) = (Ends-ranged u (e ∷ areas) others (scan_range last)).at db s in
        (l, rw e' refl, rw e' kept, all)
