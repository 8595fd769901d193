-- ===== src/Users/Laws/Lines.antt =====
-- The lines of the users' file, and the last line and the greatest number in it.
use mathlib.Core.Option
use ii_go.Base.{
  ltb, if◌then◌else◌, Bool-cases, All, All-append, Bytes, codes, str_eq, Lacks, ℤ, pos, negsuc,
  IsInt32, ok, ℕ, ◌≤◌, ◌≡◌, refl, ◌≢◌, inl, inr, Bool, true, false, Option, none, some, List, [],
  ◌∷◌, ◌++◌, map, arith,
}
use ii_go.Strings.{split, join, has_prefix}
use ii_go.Strings.Split.{split-join}
use ii_go.Decimal.{print_int}
use ii_go.Decimal.RoundTrip.{scan_int32-print_int, print_int-Lacks, print_int-colon}
use ii_go.Msg.Tags.{new_tags, to_string}
use ii_go.Users.{User, user_line}
use ii_go.Users.Load.{user_columns}
use ii_go.Users.Account.{greater_id, max_id}

-- A user whose line has five columns.
pub record IsLine (u : User) : Type 0 where
  pub id_range : IsInt32 u.id
  pub name_column : Lacks b':' u.name × Lacks b'\n' u.name
  pub mail_column : Lacks b':' u.mail × Lacks b'\n' u.mail
  pub secret_column : Lacks b':' u.secret × Lacks b'\n' u.secret
  pub tags_column : Lacks b':' (to_string u.tags) × Lacks b'\n' (to_string u.tags)

-- The user as the line gives it: the tags are those of their text.
abbrev pub reread : User → User
reread u = record u { tags = new_tags (to_string u.tags) }

-- The last user with a name.
unfoldable pub last_user : Bytes → List User → Option User
last_user name [] = none
last_user name (u ∷ us) = elim (last_user name us) [
  | some v ↦ some v
  | none ↦ if str_eq u.name name then some u else none
]

pub user_columns-user_line :
    (u : User) → IsLine u → user_columns (split (user_line u) b':') ≡ ok (some (reread u))
unfolding user_line user_columns
user_columns-user_line u w =
    rw
      (split-join (print_int u.id) (u.name ∷ u.mail ∷ u.secret ∷ to_string u.tags ∷ []) b':' (
        print_int-colon u.id,
        (w.name_column.0, (w.mail_column.0, (w.secret_column.0, (w.tags_column.0, tt)))),
      ))
      (rw (scan_int32-print_int u.id w.id_range))

unbanged : (s t : Bytes) → Lacks b'!' s → has_prefix (s ++ b':' ∷ t) (codes "!lock") ≡ false
unfolding has_prefix
unbanged [] t h = refl
unbanged (c ∷ s) t h = ground arith

pub unlocked_line : (u : User) → has_prefix (user_line u) (codes "!lock") ≡ false
unfolding user_line join
unlocked_line u = unbanged (print_int u.id) _ (print_int-Lacks b'!' u.id (omega arith))

Lacks-join : (c sep : ℕ) (ps : List Bytes) → sep ≢ c → All (Lacks c) ps → Lacks c (join ps sep)
unfolding join
Lacks-join c sep [] n h = tt
Lacks-join c sep (p ∷ []) n h = h.0
Lacks-join c sep (p ∷ q ∷ ps) n h =
    All-append (λ d. d ≢ c) p (sep ∷ join (q ∷ ps) sep) h.0 (n, Lacks-join c sep (q ∷ ps) n h.1)

user_line-Lacks : (u : User) → IsLine u → Lacks b'\n' (user_line u)
unfolding user_line
user_line-Lacks u w = Lacks-join b'\n' b':' _ (omega arith) (
  print_int-Lacks b'\n' u.id (omega arith),
  (w.name_column.1, (w.mail_column.1, (w.secret_column.1, (w.tags_column.1, tt)))),
)

pub user_lines-Lacks : (us : List User) → All IsLine us → All (Lacks b'\n') (map user_line us)
user_lines-Lacks [] w = tt
user_lines-Lacks (u ∷ us) w = (user_line-Lacks u w.0, user_lines-Lacks us w.1)

-- The last of the users with the name, or what was there before.
unfoldable pub or_before : Option User → Option User → Option User
or_before none d = d
or_before (some u) d = some (reread u)

pub or_before_later :
    (o : Option User) (b : Bool) (u : User) (d : Option User)
    → or_before o (if b then some (reread u) else d)
      ≡ or_before (elim o [ some v ↦ some v | none ↦ if b then some u else none ]) d
unfolding or_before
or_before_later none true u d = refl
or_before_later none false u d = refl
or_before_later (some v) b u d = refl

pub or_before-none : (o : Option User) → or_before o none ≡ Option.map reread o
unfolding or_before
or_before-none none = refl
or_before-none (some u) = refl

pub last_user-append :
    (us : List User) (u : User) (name : Bytes)
    → str_eq u.name name ≡ true
    → last_user name (us ++ u ∷ []) ≡ some u
unfolding last_user
last_user-append [] u name h = rw h
last_user-append (v ∷ us) u name h = rw (last_user-append us u name h)

-- An id that is not above a number.
abbrev pub Below : ℤ → ℕ → Type 0
Below (pos n) m = n ≤ m
Below (negsuc n) m = Unit

greater_id-Below : (id : ℤ) (m : ℕ) → (m ≤ greater_id id m) × Below id (greater_id id m)
greater_id-Below (pos n) m = elim (Bool-cases (ltb m n)) [
  | inl more ↦ (ground arith, ground arith)
  | inr less ↦ (ground arith, ground arith)
]
greater_id-Below (negsuc n) m = (omega arith, tt)

Below-trans : (id : ℤ) (m n : ℕ) → Below id m → m ≤ n → Below id n
Below-trans (pos i) m n h k = omega arith
Below-trans (negsuc i) m n h k = tt

pub max_id-Below :
    (names : List (Bytes × User)) (m : ℕ)
    → (m ≤ max_id names m) × All (λ (r : Bytes × User). Below r.1.id (max_id names m)) names
unfolding max_id
max_id-Below [] m = (omega arith, tt)
max_id-Below ((n, u) ∷ names) m =
    let (more, below) = greater_id-Below u.id m in
    let (later, all) = max_id-Below names (greater_id u.id m) in
    (omega arith, (Below-trans u.id (greater_id u.id m) _ below later, all))
