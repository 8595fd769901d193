-- ===== src/Msg/Tags/Laws.antt =====
-- Reading a property after adding or deleting one, and the invariant of the two fields.
use ii_go.Base.{
  if◌then◌else◌, Bool-cases, Option-cases, Bytes, str_eq, str_eq_refl, str_eq_iff, Lacks, ok, ◌≡◌,
  inl, inr, true, false, ◌||◌, Option, none, some, List, [], ◌∷◌, ◌++◌, arith,
}
use mathlib.Core.Path.{subst}
use ii_go.Dict
use ii_go.Strings.{split, trim}
use ii_go.Msg.Tags.{
  Tags, no_tags, pairs, fill, make_tags, get, entries, add_pairs, add_or_keep, drop_first, mem, del,
}
use ii_go.Strings.Split.{split-append, split-Lacks}

-- Every property of the map is named in the list, so that it is printed.
pub record IsListed (t : Tags) : Type 0 where
  pub listed : (k v : Bytes) → get t k ≡ some v → mem t.list k ≡ true

abbrev CoveredBy : List (Bytes × Bytes) → List Bytes → Type 0
CoveredBy hash list = (k v : Bytes) → Dict.get hash k ≡ some v → mem list k ≡ true

mem-append : (l : List Bytes) (j k : Bytes) → mem (l ++ j ∷ []) k ≡ (mem l k || str_eq j k)
unfolding mem
mem-append [] j k = ground arith
mem-append (i ∷ l) j k = ground (arith, mem-append l j k)

put-CoveredBy :
    (hash : List (Bytes × Bytes)) (list list' : List Bytes) (k v : Bytes)
    → CoveredBy hash list
    → ((j : Bytes) → mem list j ≡ true → mem list' j ≡ true)
    → mem list' k ≡ true
    → CoveredBy (Dict.put hash k v) list'
put-CoveredBy hash list list' k v c grow new j w e =
    ground (arith, Dict.get-put hash k j v, str_eq_iff k j, c j w, grow j)

fill-IsListed :
    (ps hash : List (Bytes × Bytes)) (list : List Bytes)
    → CoveredBy hash list
    → IsListed (fill ps hash list)
unfolding fill
fill-IsListed [] hash list c = record { listed = λ k v e. c k v (unfold get in e) }
fill-IsListed ((k, v) ∷ ps) hash list c = fill-IsListed ps (Dict.put hash k v) (list ++ k ∷ []) (
    put-CoveredBy hash list (list ++ k ∷ []) k v c (λ j m. ground (arith, mem-append list k j))
      (ground (arith, mem-append list k k, str_eq_refl k)))

no_tags-IsListed : IsListed no_tags
no_tags-IsListed = record { listed = λ k v e. unfold get in cc }

nil-CoveredBy : CoveredBy [] []
nil-CoveredBy k v e = unfold Dict.get in cc

-- Whatever MakeTags returns has all its properties in the list.
pub make_tags-IsListed : (s : Bytes) {t : Tags} → make_tags s ≡ ok t → IsListed t
unfolding make_tags
make_tags-IsListed s {t} h = elim (Bool-cases (str_eq (trim s b' ') [])) [
  | inl e ↦ subst IsListed (ground arith) no_tags-IsListed
  | inr e ↦ elim (Option-cases (pairs (split (trim s b' ') b'/'))) [
    | inl n ↦ absurd (ground arith)
    | inr (ps, f) ↦ subst IsListed (ground arith) (fill-IsListed ps [] [] nil-CoveredBy)
  ]
]

add_pairs-IsListed :
    (ps hash : List (Bytes × Bytes)) (list : List Bytes)
    → CoveredBy hash list
    → IsListed (add_pairs ps hash list)
unfolding add_pairs
add_pairs-IsListed [] hash list c = record { listed = λ k v e. c k v (unfold get in e) }
add_pairs-IsListed ((k, v) ∷ ps) hash list c = elim (Option-cases (Dict.get hash k)) [
  | inl n ↦ rw n (
      add_pairs-IsListed ps (Dict.put hash k v) (list ++ k ∷ []) (
        put-CoveredBy hash list (list ++ k ∷ []) k v c (λ j m. ground (arith, mem-append list k j))
          (ground (arith, mem-append list k k, str_eq_refl k))))
  | inr (w, e) ↦ rw e (
      add_pairs-IsListed ps (Dict.put hash k v) list
        (put-CoveredBy hash list list k v c (λ j m. m) (c k w e)))
]

entries-CoveredBy : (t : Tags) → IsListed t → CoveredBy (entries t.hash) t.list
entries-CoveredBy t h k v e = h.listed k v (unfold get Dict.get in ground arith)

after_add : Tags → Option (List (Bytes × Bytes)) → Tags
after_add t none = t
after_add t (some ps) = add_pairs ps (entries t.hash) t.list

add_or_keep_lem : (t : Tags) (s : Bytes) → add_or_keep t s ≡ after_add t (pairs (split s b'/'))
unfolding add_or_keep after_add
add_or_keep_lem t s = ground arith

after_add-IsListed :
    (t : Tags) (o : Option (List (Bytes × Bytes))) → IsListed t → IsListed (after_add t o)
unfolding after_add
after_add-IsListed t none h = h
after_add-IsListed t (some ps) h =
    add_pairs-IsListed ps (entries t.hash) t.list (entries-CoveredBy t h)

-- Adding keeps every property in the list, and so does a refused text.
pub add_or_keep-IsListed : (t : Tags) (s : Bytes) → IsListed t → IsListed (add_or_keep t s)
add_or_keep-IsListed t s h = rw add_or_keep_lem (after_add-IsListed t (pairs (split s b'/')) h)

drop_first-mem :
    (l : List Bytes) (k j : Bytes)
    → str_eq k j ≡ false
    → mem l j ≡ true
    → mem (drop_first l k) j ≡ true
unfolding drop_first mem
drop_first-mem [] k j d m = m
drop_first-mem (i ∷ l) k j d m =
    ground (arith, drop_first-mem l k j, str_eq_iff i k, str_eq_iff i j, str_eq_iff k j)

get-del_from :
    (hash : Option (List (Bytes × Bytes))) (list : List Bytes) (k j : Bytes)
    → get (del (record { hash = hash; list = list }) k).0 j
      ≡ (if str_eq k j then none else get (record { hash = hash; list = list }) j)
unfolding del get
get-del_from none list k j = ground arith
get-del_from (some m) list k j = ground (arith, Dict.get-delete m k j, str_eq_iff k j)

-- After `Del(k)` the property k is gone and the others are as they were.
pub get-del : (t : Tags) (k j : Bytes) → get (del t k).0 j ≡ (if str_eq k j then none else get t j)
get-del t = get-del_from t.hash t.list

list-del :
    (hash : Option (List (Bytes × Bytes))) (list : List Bytes) (k j : Bytes)
    → str_eq k j ≡ false
    → mem list j ≡ true
    → mem (del (record { hash = hash; list = list }) k).0.list j ≡ true
unfolding del
list-del none list k j d m = m
list-del (some hash) list k j d m = ground (arith, drop_first-mem list k j d m)

-- If every property is in the list of names, Del leaves every remaining one in it.
pub del-IsListed : (t : Tags) (tag : Bytes) → IsListed t → IsListed (del t tag).0
del-IsListed t tag h = record {
  listed = λ k v e. elim (Bool-cases (str_eq tag k)) [
    | inl s ↦ absurd (ground (arith, get-del t tag k))
    | inr d ↦ list-del t.hash t.list tag k d (h.listed k v (ground (arith, get-del t tag k)))
  ];
}

get-after_add :
    (hash : Option (List (Bytes × Bytes))) (list : List Bytes) (k v j : Bytes)
    → get (after_add (record { hash = hash; list = list }) (some ((k, v) ∷ []))) j
      ≡ (if str_eq k j then some v else get (record { hash = hash; list = list }) j)
unfolding after_add add_pairs get
get-after_add none list k v j = unfold Dict.get in ground (arith, Dict.get-put [] k j v)
get-after_add (some m) list k v j = Dict.get-put m k j v

-- After `Add("k/v")`, where neither k nor v holds a slash, the property k is v and the others are as
-- they were.
pub get-add_or_keep :
    (t : Tags) (k v j : Bytes)
    → Lacks b'/' k
    → Lacks b'/' v
    → get (add_or_keep t (k ++ b'/' ∷ v)) j ≡ (if str_eq k j then some v else get t j)
get-add_or_keep t k v j hk hv =
    rw (add_or_keep_lem, split-append k v b'/' hk, split-Lacks v b'/' hv)
      (unfold pairs in get-after_add t.hash t.list k v j)
