-- ===== src/Msg/Tags.antt =====
-- ii/msg.go, type Tags: properties kept as a map and the list of their names, read from and written
-- to the text key1/value1/key2/value2.
pub mod RoundTrip
pub mod Laws
use ii_go.Base.{
  if◌then◌else◌, Bytes, str_eq, Result, ok, err, Bool, true, false, ◌||◌, Option, none, some, List,
  [], ◌∷◌, ◌++◌,
}
use ii_go.Strings.{split, trim_suffix, trim}
use ii_go.Dict
use mathlib.Core.Option

-- `hash` is `none` where the source's map is nil.
pub record Tags : Type 0 where
  pub hash : Option (List (Bytes × Bytes))
  pub list : List Bytes

abbrev pub no_tags : Tags
no_tags = record { hash = none; list = [] }

pub data TagsError : Type 0 where
  wrong_tags : TagsError

-- The parts two by two; `none` if their number is odd.
unfoldable pub pairs : List Bytes → Option (List (Bytes × Bytes))
pairs [] = some []
pairs (k ∷ []) = none
pairs (k ∷ v ∷ ps) = Option.map (λ (l : List (Bytes × Bytes)). (k, v) ∷ l) (pairs ps)

-- The loop of MakeTags: every key is appended to the list, also one that is there.
unfoldable pub fill : List (Bytes × Bytes) → List (Bytes × Bytes) → List Bytes → Tags
fill [] hash list = record { hash = some hash; list = list }
fill ((k, v) ∷ ps) hash list = fill ps (Dict.put hash k v) (list ++ k ∷ [])

fill_all : Option (List (Bytes × Bytes)) → Result TagsError Tags
fill_all none = err wrong_tags
fill_all (some ps) = ok (fill ps [] [])

unfoldable pub make_tags : Bytes → Result TagsError Tags
unfolding fill_all fill pairs
make_tags str =
    let s = trim str b' ' in if str_eq s [] then ok no_tags else fill_all (pairs (split s b'/'))

-- NewTags ignores the error: the unfilled tags are left.
unfoldable pub new_tags : Bytes → Tags
unfolding make_tags
new_tags str = elim (make_tags str) [ ok t ↦ t | err e ↦ no_tags ]

-- (t *Tags) Get
unfoldable pub get : Tags → Bytes → Option Bytes
get t n = elim t.hash [ none ↦ none | some m ↦ Dict.get m n ]

-- `v, _ := t.Get(n)`: a missing property reads as the empty text.
unfoldable pub get_or_empty : Tags → Bytes → Bytes
unfolding get
get_or_empty t n = elim (get t n) [ none ↦ [] | some v ↦ v ]

abbrev pub entries : Option (List (Bytes × Bytes)) → List (Bytes × Bytes)
entries none = []
entries (some m) = m

abbrev is_some : Option Bytes → Bool
is_some none = false
is_some (some v) = true

-- The loop of Add: a key that is there keeps its place in the list.
unfoldable pub add_pairs : List (Bytes × Bytes) → List (Bytes × Bytes) → List Bytes → Tags
add_pairs [] hash list = record { hash = some hash; list = list }
add_pairs ((k, v) ∷ ps) hash list =
    add_pairs ps (Dict.put hash k v) (if is_some (Dict.get hash k) then list else list ++ k ∷ [])

add_all : Tags → Option (List (Bytes × Bytes)) → Result TagsError Tags
add_all t none = err wrong_tags
add_all t (some ps) = ok (add_pairs ps (entries t.hash) t.list)

-- (t *Tags) Add; on an error the tags stay as they are.
unfoldable pub add : Tags → Bytes → Result TagsError Tags
unfolding add_all add_pairs pairs
add t str = add_all t (pairs (split str b'/'))

-- `t.Add(str)` where the caller drops the error.
unfoldable pub add_or_keep : Tags → Bytes → Tags
unfolding add
add_or_keep t str = elim (add t str) [ ok u ↦ u | err e ↦ t ]

-- Drop the first occurrence.
unfoldable pub drop_first : List Bytes → Bytes → List Bytes
drop_first [] k = []
drop_first (j ∷ l) k = if str_eq j k then l else j ∷ drop_first l k

unfoldable pub mem : List Bytes → Bytes → Bool
mem [] k = false
mem (j ∷ l) k = str_eq j k || mem l k

del_from : Tags → Bytes → Option (List (Bytes × Bytes)) → Tags × Bool
del_from t tag none = (t, false)
del_from t tag (some m) =
    if is_some (Dict.get m tag)
    then (record { hash = some (Dict.delete m tag); list = drop_first t.list tag }, mem t.list tag)
    else (t, false)

-- (t *Tags) Del
unfoldable pub del : Tags → Bytes → Tags × Bool
unfolding del_from drop_first mem
del t tag = del_from t tag t.hash

-- One round of String: a name that is not in the map is passed over.
abbrev piece : Bytes → Option Bytes → Bytes
piece n none = []
piece n (some val) = n ++ b'/' ∷ val ++ b'/' ∷ []

unfoldable pub pieces : List (Bytes × Bytes) → List Bytes → Bytes
pieces hash [] = []
pieces hash (n ∷ list) = piece n (Dict.get hash n) ++ pieces hash list

-- (t Tags) String
unfoldable pub to_string : Tags → Bytes
unfolding pieces
to_string t = elim t.hash [ none ↦ [] | some m ↦ trim_suffix (pieces m t.list) b'/' ]
