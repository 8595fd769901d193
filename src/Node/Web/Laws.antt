-- ===== src/Node/Web/Laws.antt =====
-- ii-node/web.go: who may change a message by a form.
use ii_go.Base.{
  Bool-cases, Bytes, str_eq, str_eq_iff, ℤ, Result, ok, err, ◌≡◌, refl, sym, ◌∙◌, ◌⊎◌, inl, inr,
  Bool, true, false, ◌&&◌, not, Option, none, some, List, [], arith,
}
use ii_go.Msg.Encode.{Msg, named}
use ii_go.Db.State.Ends.{Ends, Ends-pure, Ends-gets, Ends-bind, Ends-if, Ends-known, Ends-given}
use ii_go.Db.Access.{StoreError, store_with, edit, blacklist}
use ii_go.Db.Log.Keeps.{Synced}
use ii_go.Db.State.{Db, pure, gets}
use ii_go.Db.Log.Names.{name-store_with}
use ii_go.Db.Log.Store.{store_with-refused}
use ii_go.Users.{User}
use ii_go.Echoes.{Edb, edb_access}
use ii_go.Node.Points.Laws.{Ends-point_policy}
use ii_go.Node.Web.{
  Form, Page, denied, no_such_msg, unverified, done, bad_form, failed, is_root, address, msg_access,
  page_of, authored, form_line, blacklist_found, www_blacklist, save, verified, checked,
  with_original, original, decoded_form, www_new,
}
use ii_go.Msg.Decode.{MsgError}
use ii_go.Msg.Line.{decode_msgline}
use ii_go.Node.Web.Shown.{shown, Ends-get_msg}

module _ {Regex : Type 0} (sha256 : Bytes → Bytes) (now : ℤ) (matches : Regex → Bytes → Bool)
    (edb : Edb Regex) (u : User) (log : List Msg) (name : Bytes) where
  -- The log is as it was, or R holds and the page says that a message was stored.
  abbrev pub Kept : Type 0 → Page → Db → Type 0
  Kept R p db = Synced log name db ⊎ ((p ≡ done) × R)

  stored_page :
      (R : Type 0)
      → R
      → (r : Option StoreError)
      → Ends (λ db. Synced log name db ⊎ (r ≡ none)) (pure (page_of r)) (Kept R)
  unfolding page_of
  stored_page R h none = Ends-pure _ (Kept R) done (λ db k. inr (refl, h))
  stored_page R h (some e) =
      Ends-pure _ (Kept R) (failed e) (λ db k. elim k [ inl s ↦ inl s | inr n ↦ cc ])

  Ends-store_with :
      (m : Msg) (edit_it : Bool)
      → Ends
          (Synced log name)
          (store_with sha256 now m edit_it)
          (λ r db. Synced log name db ⊎ (r ≡ none))
  Ends-store_with m edit_it = record {
    at = λ db (s, n).
        let (r, e, left) = store_with-refused sha256 now db log m edit_it s in
        (
          r,
          e,
          elim left [
            | inl written ↦ inr written
            | inr kept ↦ inl (kept, name-store_with sha256 now m edit_it db ∙ n)
          ],
        );
  }

  Ends-save :
      (R : Type 0)
      → R
      → (edit_it : Bool) (m : Msg)
      → Ends (Synced log name) (save sha256 now matches edb u edit_it m) (Kept R)
  unfolding save
  Ends-save R h edit_it m =
      Ends-bind (Synced log name) (λ r db. Synced log name db ⊎ (r ≡ none)) (Kept R) _ _
        (Ends-store_with m edit_it) (stored_page R h)

  Ends-verified :
      (R : Type 0)
      → R
      → (edit_it submit : Bool) (m : Msg) (good : Bool)
      → Ends (Synced log name) (verified sha256 now matches edb u edit_it submit m good) (Kept R)
  unfolding verified
  Ends-verified R h edit_it submit m false =
      Ends-pure (Synced log name) (Kept R) unverified (λ db s. inl s)
  Ends-verified R h edit_it submit m true =
      Ends-if (Synced log name) (Kept R) (not (edb_access matches edb m) && not (is_root u)) _ _
        (λ no_rights. Ends-pure (Synced log name) (Kept R) denied (λ db s. inl s))
        (λ rights.
          Ends-if (Synced log name) (Kept R) submit _ _ (λ e. Ends-save R h edit_it m)
            (λ e. Ends-pure (Synced log name) (Kept R) _ (λ db s. inl s)))

  Ends-checked :
      (R : Type 0)
      → R
      → (edit_it submit : Bool) (m : Msg)
      → Ends (Synced log name) (checked sha256 now matches edb u edit_it submit m) (Kept R)
  unfolding checked
  Ends-checked R h edit_it submit m =
      Ends-bind (Synced log name) (λ g. Synced log name) (Kept R) _ _
        (Ends-point_policy sha256 log name u m) (λ g. Ends-verified R h edit_it submit m g)

  -- The form is of a new message, or of one that shows and has the address of the user.
  abbrev pub IsOwn : Form → Type 0
  IsOwn form =
      (form.id ≡ [])
      ⊎ ((o : Msg) × (shown sha256 log name form.id ≡ some o) × (o.addr ≡ address name u))

  Ends-with_original :
      (edit_it : Bool) (form : Form) (m : Msg) (o : Option Msg)
      → is_root u ≡ false
      → m.addr ≡ address name u
      → o ≡ shown sha256 log name form.id
      → Ends
          (Synced log name)
          (with_original sha256 now matches edb u edit_it form m o)
          (Kept (IsOwn form))
  unfolding with_original
  Ends-with_original edit_it form m none plain own e =
      rw plain (Ends-pure (Synced log name) (Kept (IsOwn form)) denied (λ db s. inl s))
  Ends-with_original edit_it form m (some o) plain own e =
      Ends-if (Synced log name) (Kept (IsOwn form)) (not (str_eq m.addr o.addr) && not (is_root u))
        _ _ (λ other. Ends-pure (Synced log name) (Kept (IsOwn form)) denied (λ db s. inl s))
        (λ mine.
          Ends-checked (IsOwn form) (inr (o, sym e, ground (arith, str_eq_iff m.addr o.addr)))
            edit_it form.submit _)

  addr-authored : (form : Form) (m : Msg) → (authored name u form m).addr ≡ address name u
  unfolding authored
  addr-authored form m = ground arith

  Ends-original :
      (edit_it : Bool) (form : Form) (m : Msg)
      → is_root u ≡ false
      → m.addr ≡ address name u
      → Ends
          (Synced log name)
          (original sha256 now matches edb u edit_it form m)
          (Kept (IsOwn form))
  unfolding original
  Ends-original edit_it form m plain own =
      Ends-if (Synced log name) (Kept (IsOwn form)) (str_eq form.id []) _ _
        (λ new.
          Ends-checked (IsOwn form) (inl ((str_eq_iff form.id []).0 new)) edit_it form.submit m)
        (λ old.
          Ends-bind (Synced log name) _ (Kept (IsOwn form)) _ _
            (Ends-get_msg sha256 log name form.id)
            (λ o. Ends-given _ (λ e. Ends-with_original edit_it form m o plain own e)))

  Ends-decoded_form :
      (path : Bytes) (form : Form) (r : Result MsgError Msg)
      → is_root u ≡ false
      → Ends
          (Synced log name)
          (decoded_form sha256 now matches edb u path form r)
          (Kept (IsOwn form))
  unfolding decoded_form
  Ends-decoded_form path form (err e) plain =
      Ends-pure (Synced log name) (Kept (IsOwn form)) (bad_form e) (λ db s. inl s)
  Ends-decoded_form path form (ok m) plain =
      let rest = λ (node : Bytes).
        original sha256 now matches edb u (str_eq path []) form (authored node u form m) in
      Ends-bind (Synced log name) (λ node db. Synced log name db × (node ≡ name))
        (Kept (IsOwn form)) (gets (λ db. db.name)) rest
        (Ends-gets (Synced log name) _ (λ db. db.name) (λ db s. (s, s.1)))
        (λ node. Ends-known rest name node (
          Ends-original (str_eq path []) form (authored name u form m) plain
            (addr-authored form m)))

  -- The form of a user who is not the superuser, new message or edit, on files that hold a log: www_new ends without a
  -- fault, and leaves the log as it is unless it says that the message was stored; then the user is named, and the
  -- form is of a new message, or the message that it edits is shown and has the address of the user.
  pub www_new-IsOwn :
      (db : Db) (path : Bytes) (form : Form)
      → Synced log name db
      → is_root u ≡ false
      → (p : Page) × ((www_new sha256 now matches edb u path form db).0 ≡ ok p)
        × Kept
            ((str_eq u.name [] ≡ false) × IsOwn form)
            p
            (www_new sha256 now matches edb u path form db).1
  unfolding www_new
  www_new-IsOwn db path form s plain = elim (Bool-cases (str_eq u.name [])) [
    | inl nameless ↦ rw nameless (denied, refl, inl s)
    | inr named ↦
        let (p, e, kept) =
          (Ends-decoded_form path form (decode_msgline now (form_line path form) false) plain).at db
            s in
        rw named (p, e, elim kept [ inl k ↦ inl k | inr (d, own) ↦ inr (d, (refl, own)) ])
  ]

  Ends-blacklist_found :
      (id : Bytes) (o : Option Msg)
      → o ≡ shown sha256 log name id
      → Ends
          (Synced log name)
          (blacklist_found sha256 now matches edb u o name)
          (Kept ((m : Msg) × (shown sha256 log name id ≡ some m) × (msg_access name m u ≡ true)))
  unfolding blacklist_found blacklist edit
  Ends-blacklist_found id none e = Ends-pure (Synced log name) (Kept _) no_such_msg (λ db s. inl s)
  Ends-blacklist_found id (some m) e =
      Ends-if (Synced log name) (Kept _) (not (msg_access name m u)) _ _
        (λ other. Ends-pure (Synced log name) (Kept _) denied (λ db s. inl s))
        (λ mine.
          Ends-bind (Synced log name) (λ r db. Synced log name db ⊎ (r ≡ none)) (Kept _) _ _
            (Ends-store_with _ true) (stored_page _ (m, sym e, ground arith)))

  Ends-www_blacklist :
      (id : Bytes)
      → Ends
          (Synced log name)
          (www_blacklist sha256 now matches edb u id)
          (Kept ((m : Msg) × (shown sha256 log name id ≡ some m) × (msg_access name m u ≡ true)))
  unfolding www_blacklist
  Ends-www_blacklist id =
      Ends-bind (Synced log name) _ (Kept _) _ _ (Ends-get_msg sha256 log name id) (λ o.
        Ends-bind (λ db. Synced log name db × (o ≡ shown sha256 log name id))
          (λ node db. (Synced log name db × (o ≡ shown sha256 log name id)) × (node ≡ name))
          (Kept _) _ _ (Ends-gets _ _ (λ db. db.name) (λ db s. (s, s.0.1)))
          (λ node.
            Ends-known (blacklist_found sha256 now matches edb u o) name node
              (Ends-given _ (λ e. Ends-blacklist_found id o e))))

  -- www_blacklist on files that hold a log ends without a fault, and leaves the log as it is unless it says that the message
  -- was stored; then the message that is blacklisted is shown, and has the address of the user, or the user is the superuser.
  pub www_blacklist-IsOwn :
      (db : Db) (id : Bytes)
      → Synced log name db
      → (p : Page) × ((www_blacklist sha256 now matches edb u id db).0 ≡ ok p)
        × Kept
            ((m : Msg) × (shown sha256 log name id ≡ some m) × (msg_access name m u ≡ true))
            p
            (www_blacklist sha256 now matches edb u id db).1
  unfolding www_blacklist
  www_blacklist-IsOwn db id s = (Ends-www_blacklist id).at db s
