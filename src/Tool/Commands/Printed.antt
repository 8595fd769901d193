-- ===== src/Tool/Commands/Printed.antt =====
-- ii-tool/main.go: the command sort on files that hold a log.
use mathlib.Core.Option
use mathlib.Core.List.{Perm, map-append}
use ii_go.Base.{
  Option-cases, Bytes, ok, ℕ, ◌≡◌, refl, sym, ap, ◌∙◌, inl, inr, Bool, false, Option, none, some,
  List, [], ◌∷◌, ◌++◌, map,
}
use ii_go.Msg.Encode.{Msg}
use ii_go.Db.Index.{MsgInfo}
use ii_go.Db.State.{Db, nil_pointer, ◌>>=◌, pure, fault}
use ii_go.Db.State.Ends.{Ends, Ends-pure, Ends-bind, Ends-weaken, Ends-given}
use ii_go.Db.Access.{get_msg}
use ii_go.Db.Log.{latest}
use ii_go.Db.Log.Get.{columns, shows, entry_at, msg_at}
use ii_go.Db.Log.Keeps.{Synced, Current, Found, Ends-load_index}
use ii_go.Db.Log.Fast.{Found-id, Ends-lookup_fast}
use ii_go.Node.Web.Shown.{shown, Ends-get_msg-Current}
use ii_go.Tool.Commands.{sort_msgs, sort_input, all_read, sort}
use ii_go.Tool.Commands.Sorted.{IsOrdered, sort_msgs-Perm, sort_msgs-IsOrdered}

all_read-some : (sha256 : Bytes → Bytes) (l : List Msg) → all_read sha256 (map some l) ≡ some l
unfolding all_read
all_read-some sha256 [] = refl
all_read-some sha256 (m ∷ l) = rw (all_read-some sha256 l)

module _ (sha256 : Bytes → Bytes) (log : List Msg) (name : Bytes) where
  abbrev one_msg : Option Msg → List Msg
  one_msg none = []
  one_msg (some m) = m ∷ []

  -- The last messages with the ids, in their order, but for those that are hidden or were never stored.
  abbrev pub msgs_of : List Bytes → List Msg
  msgs_of [] = []
  msgs_of (id ∷ ids) = one_msg (shown sha256 log name id) ++ msgs_of ids

  read_msg :
      (id : Bytes) (mi : MsgInfo) (o : Option Msg) (q : Option (ℕ × Msg))
      → shows false (latest id 0 log) ≡ q
      → Option.map columns (some mi) ≡ Option.map entry_at q
      → o ≡ Option.map msg_at q
      → o ∷ [] ≡ map some (one_msg (Option.map msg_at q))
  read_msg id mi o none e f h = cc
  read_msg id mi o (some r) e f h = rw h

  Ends-read_one :
      (id : Bytes) (i : Option MsgInfo)
      → Ends
          (λ db. Current log name db × Found log id false i)
          (elim i [ none ↦ pure [] | some mi ↦ (do o ← get_msg sha256 mi.id; pure (o ∷ [])) ])
          (λ m db. Current log name db × (m ≡ map some (one_msg (shown sha256 log name id))))
  Ends-read_one id none = record {
    at = λ db (c, f). (
      [],
      refl,
      (
        c,
        elim (Option-cases (shows false (latest id 0 log))) [
          | inl e ↦ rw e refl
          | inr (r, e) ↦
              (let bad : none ≡ some (entry_at r) = f ∙ ap (Option.map entry_at) e in
                absurd (cc bad))
        ],
      ),
    );
  }
  Ends-read_one id (some mi) = record {
    at = λ db (c, f).
        let (o, e, (kept, h)) = (Ends-get_msg-Current sha256 log name (mi.id)).at db (c.0) in
        let same : mi.id ≡ id = Found-id sha256 log name id mi (c.0.0.indexable) f in
        let h' : o ≡ shown sha256 log name id = h ∙ ap (shown sha256 log name) same in
        (o ∷ [], rw e refl, (rw e kept, read_msg id mi o _ refl f h'));
  }

  Ends-sort_input :
      (ids : List Bytes)
      → Ends
          (Current log name)
          (sort_input sha256 ids)
          (λ l db. Current log name db × (l ≡ map some (msgs_of ids)))
  unfolding sort_input
  Ends-sort_input [] = Ends-pure _ _ [] (λ db c. (c, refl))
  Ends-sort_input (id ∷ ids) =
      Ends-bind (Current log name) _ _ _ _ (Ends-lookup_fast sha256 log name id) (λ i.
        Ends-bind _ _ _ _ _ (Ends-read_one id i) (λ m. Ends-given _ (λ e.
          Ends-bind (Current log name) _ _ _ _ (Ends-sort_input ids) (λ rest.
            Ends-pure _ _ (m ++ rest) (λ db (c, f). (c, rw (e, f) (sym (map-append _ _ _))))))))

  Ends-print :
      (invert : Bool) (read : List (Option Msg)) (l : List Msg)
      → read ≡ map some l
      → Ends
          (Current log name)
          (elim (all_read sha256 read) [
            | none ↦ fault nil_pointer
            | some ms ↦ pure (sort_msgs invert ms)
          ])
          (λ ms db. Current log name db × (ms ≡ sort_msgs invert l))
  Ends-print invert read l h =
      rw (h, all_read-some sha256 l) (Ends-pure _ _ (sort_msgs invert l) (λ db c. (c, refl)))

  Ends-sort :
      (invert : Bool) (ids : List Bytes)
      → Ends
          (Synced log name)
          (sort sha256 invert ids)
          (λ ms db. Current log name db × (ms ≡ sort_msgs invert (msgs_of ids)))
  unfolding sort
  Ends-sort invert ids = Ends-bind (Synced log name) _ _ _ _ (Ends-load_index sha256 log name) (λ e.
      Ends-weaken (λ db (c : (e ≡ none) × Current log name db). c.1)
        (Ends-bind (Current log name) _ _ _ _ (Ends-sort_input ids)
          (λ read. Ends-given _ (λ h. Ends-print invert read (msgs_of ids) h))))

  -- The command sort on files that hold a log ends without a fault and leaves the log. It prints
  -- the ids of the last messages with the ids that it reads, each as often as it is read, less those that are
  -- hidden (blacklisted, and not at offset 0 of the bundle file) or were never stored, in the order of the dates, the latest first if -i is given.
  pub sort-IsOrdered :
      (invert : Bool) (ids : List Bytes) (db : Db)
      → Synced log name db
      → (ms : List Msg) × ((sort sha256 invert ids db).0 ≡ ok ms)
        × Synced log name (sort sha256 invert ids db).1
        × Perm ms (msgs_of ids)
        × IsOrdered invert ms
  sort-IsOrdered invert ids db s =
      let (ms, e, (kept, same)) = (Ends-sort invert ids).at db s in
      (
        ms,
        e,
        kept.0,
        rw same (sort_msgs-Perm invert (msgs_of ids)),
        rw same (sort_msgs-IsOrdered invert (msgs_of ids)),
      )
