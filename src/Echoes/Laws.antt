-- ===== src/Echoes/Laws.antt =====
-- The list of areas is read back as it was written, and who may write to an area.
use ii_go.Base.{
  ◌==◌, if◌then◌else◌, All, Bytes, codes, str_eq, Lacks, ok, ℕ, suc, ◌≡◌, refl, sym, ap, ◌∙◌, Bool,
  true, false, Option, none, some, List, [], ◌∷◌, ◌++◌, map, append_assoc, append-nil, arith,
}
use ii_go.Strings.{extend, split, split_n, join, has_prefix, trim_prefix}
use ii_go.Dict
use ii_go.Echoes.{
  EdbPerm, Edb, area_of, parse_area, no_areas, add_area, add_columns, load_areas, load_echolist,
}
use ii_go.Strings.Split.{split-join}
use ii_go.Db.State.Files.{text_of, lines-text_of}

-- One area of the list.
pub record Area : Type 0 where
  pub name : Bytes
  pub perm : EdbPerm
  pub size : Bytes
  pub about : Bytes

-- Its name column, and its line.
abbrev pub sign : Bool → Bytes
sign true = []
sign false = codes "-"

unfoldable pub name_column : Area → Bytes
name_column a = join ((sign a.perm.write ++ a.name) ∷ a.perm.allow) b'!'

unfoldable pub area_line : Area → Bytes
area_line a = name_column a ++ b':' ∷ (a.size ++ b':' ∷ a.about)

-- An area whose line can be read back.
pub record IsArea (a : Area) : Type 0 where
  pub name_mark : Lacks b'!' a.name
  pub name_sign : has_prefix a.name (codes "-") ≡ false
  pub allow_mark : All (Lacks b'!') a.perm.allow
  pub column : Lacks b':' (name_column a)
  pub size_column : Lacks b':' a.size
  pub line : Lacks b'\n' (area_line a)

-- The rights that the last line of an area gives.
unfoldable pub last_perm : Bytes → List Area → Option EdbPerm
last_perm e [] = none
last_perm e (a ∷ areas) = elim (last_perm e areas) [
  | some p ↦ some p
  | none ↦ if str_eq a.name e then some a.perm else none
]

split_n-append :
    (p s : Bytes) (sep n : ℕ)
    → Lacks sep p
    → split_n (p ++ sep ∷ s) sep (suc (suc n)) ≡ p ∷ split_n s sep (suc n)
unfolding split_n
split_n-append [] s sep n h = ground arith
split_n-append (c ∷ p) s sep n h =
    let other : (c == sep) ≡ false = ground arith in
    rw other (ap (extend c) (split_n-append p s sep n h.1))

split_n-area_line :
    (a : Area) → IsArea a → split_n (area_line a) b':' 3 ≡ name_column a ∷ a.size ∷ a.about ∷ []
unfolding area_line
split_n-area_line a w =
    let tail : split_n a.about b':' 1 ≡ a.about ∷ [] = unfold split_n in refl in
    let two : split_n (a.size ++ b':' ∷ a.about) b':' 2 ≡ a.size ∷ a.about ∷ [] =
      split_n-append a.size a.about b':' 0 w.size_column ∙ ap (λ r. a.size ∷ r) tail in
    let first : split_n (name_column a ++ b':' ∷ (a.size ++ b':' ∷ a.about)) b':' 3
        ≡ name_column a ∷ split_n (a.size ++ b':' ∷ a.about) b':' 2 =
      split_n-append (name_column a) (a.size ++ b':' ∷ a.about) b':' 1 w.column in
    rw (first, two)

area_of-sign :
    (w : Bool) (name : Bytes) (allow : List Bytes)
    → has_prefix name (codes "-") ≡ false
    → area_of (sign w ++ name) allow ≡ (name, record { allow = allow; write = w })
unfolding trim_prefix
area_of-sign true name allow h = rw h
area_of-sign false name allow h = unfold has_prefix in refl

Lacks-sign : (w : Bool) (name : Bytes) → Lacks b'!' name → Lacks b'!' (sign w ++ name)
Lacks-sign true name h = h
Lacks-sign false name h = (omega arith, h)

parse_area-name_column :
    (a : Area) → IsArea a → parse_area (split (name_column a) b'!') ≡ (a.name, a.perm)
unfolding name_column parse_area
parse_area-name_column a w =
    rw
      (split-join (sign a.perm.write ++ a.name) a.perm.allow b'!'
        (Lacks-sign a.perm.write a.name w.name_mark, w.allow_mark))
      (area_of-sign a.perm.write a.name a.perm.allow w.name_sign)

or_perm : Option EdbPerm → Option EdbPerm → Option EdbPerm
or_perm none d = d
or_perm (some p) d = some p

area_lines-Lacks : (areas : List Area) → All IsArea areas → All (Lacks b'\n') (map area_line areas)
area_lines-Lacks [] w = tt
area_lines-Lacks (a ∷ rest) w = (w.0.line, area_lines-Lacks rest w.1)

add_columns-area_line :
    {Regex : Type 0} (a : Area) (db : Edb Regex)
    → IsArea a
    → add_columns (split_n (area_line a) b':' 3) db ≡ ok (add_area (a.name, a.perm) a.about db)
unfolding add_columns
add_columns-area_line a db w = rw (split_n-area_line a w, parse_area-name_column a w)

or_perm_later :
    (o : Option EdbPerm) (b : Bool) (p : EdbPerm) (d : Option EdbPerm)
    → or_perm o (if b then some p else d)
      ≡ or_perm (elim o [ some q ↦ some q | none ↦ if b then some p else none ]) d
unfolding or_perm
or_perm_later none true p d = refl
or_perm_later none false p d = refl
or_perm_later (some q) b p d = refl

perm-add_area :
    {Regex : Type 0} (a : Area) (db : Edb Regex) (e : Bytes)
    → Dict.get (add_area (a.name, a.perm) a.about db).perm e
      ≡ (if str_eq a.name e then some a.perm else Dict.get db.perm e)
unfolding add_area
perm-add_area a db e = Dict.get-put db.perm a.name e a.perm

add_areas : {Regex : Type 0} → List Area → Edb Regex → Edb Regex
add_areas [] db = db
add_areas (a ∷ rest) db = add_areas rest (add_area (a.name, a.perm) a.about db)

load_areas-area_line :
    {Regex : Type 0} (areas : List Area) (db : Edb Regex)
    → All IsArea areas
    → load_areas (map area_line areas) db ≡ ok (add_areas areas db)
unfolding load_areas add_areas
load_areas-area_line [] db w = refl
load_areas-area_line (a ∷ rest) db w =
    rw (load_areas, add_columns-area_line a db w.0)
      (load_areas-area_line rest (add_area (a.name, a.perm) a.about db) w.1)

perm-add_areas :
    {Regex : Type 0} (areas : List Area) (db : Edb Regex) (e : Bytes)
    → Dict.get (add_areas areas db).perm e ≡ or_perm (last_perm e areas) (Dict.get db.perm e)
unfolding add_areas last_perm
perm-add_areas [] db e = unfold or_perm in refl
perm-add_areas (a ∷ rest) db e =
    perm-add_areas rest (add_area (a.name, a.perm) a.about db) e
    ∙ ap (or_perm (last_perm e rest)) (perm-add_area a db e)
    ∙ or_perm_later (last_perm e rest) (str_eq a.name e) a.perm (Dict.get db.perm e)

or_perm-none : (o : Option EdbPerm) → or_perm o none ≡ o
unfolding or_perm
or_perm-none none = refl
or_perm-none (some p) = refl

list-add_areas :
    {Regex : Type 0} (areas : List Area) (db : Edb Regex)
    → (add_areas areas db).list ≡ db.list ++ map (λ (a : Area). a.name) areas
unfolding add_areas
list-add_areas [] db = sym (append-nil db.list)
list-add_areas (a ∷ rest) db =
    list-add_areas rest (add_area (a.name, a.perm) a.about db)
    ∙ (unfold add_area in append_assoc db.list (a.name ∷ []) (map (λ (b : Area). b.name) rest))

-- LoadEcholist reads a file of well-formed area lines without a fault, lists the areas in the order of
-- the lines, and an area has the rights of its last line, or is not known.
pub load_echolist-area_line :
    (Regex : Type 0) (areas : List Area)
    → All IsArea areas
    → (db : Edb Regex) × (load_echolist (some (text_of (map area_line areas))) ≡ ok db)
      × (db.list ≡ map (λ (a : Area). a.name) areas)
      × ((e : Bytes) → Dict.get db.perm e ≡ last_perm e areas)
unfolding load_echolist
load_echolist-area_line Regex areas w = (
  add_areas areas no_areas,
  rw (lines-text_of (map area_line areas) (area_lines-Lacks areas w))
      (load_areas-area_line areas no_areas w),
  list-add_areas areas no_areas,
  λ e. perm-add_areas areas no_areas e ∙ (unfold Dict.get in or_perm-none (last_perm e areas)),
)
