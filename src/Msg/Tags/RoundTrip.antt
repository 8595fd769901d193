-- ===== src/Msg/Tags/RoundTrip.antt =====
-- Tags with distinct names, as a list of properties, and their printed text read back.
use ii_go.Base.{
  All, Bytes, str_eq, str_eq_refl, str_eq_iff, Lacks, ok, ◌≡◌, refl, ap, ◌∙◌, ◌≢◌, none, some, List,
  [], ◌∷◌, ◌++◌, append_assoc, append-nil, arith,
}
use ii_go.Strings.{split, join, trim_suffix, trim}
use ii_go.Dict
use ii_go.Strings.Split.{split-join}
use ii_go.Strings.Trim.{trim_suffix-append}
use ii_go.Msg.Tags.{Tags, no_tags, pairs, fill, fill_all, make_tags, pieces, to_string}

abbrev pub names : List (Bytes × Bytes) → List Bytes
names [] = []
names ((k, v) ∷ ps) = k ∷ names ps

-- The tags with these properties: a nil map for none.
abbrev pub of_pairs : List (Bytes × Bytes) → Tags
of_pairs [] = no_tags
of_pairs (p ∷ ps) = record { hash = some (p ∷ ps); list = names (p ∷ ps) }

abbrev pub Distinct : List (Bytes × Bytes) → Type 0
Distinct [] = Unit
Distinct ((k, v) ∷ ps) = (Dict.get ps k ≡ none) × Distinct ps

abbrev parts : List (Bytes × Bytes) → List Bytes
parts [] = []
parts ((k, v) ∷ ps) = k ∷ v ∷ parts ps

-- What can be printed and read back: distinct names, no slash, and no blank at either end.
pub record IsPrintable (ps : List (Bytes × Bytes)) : Type 0 where
  pub distinct : Distinct ps
  pub no_slash : All (λ p. Lacks b'/' p.0 × Lacks b'/' p.1) ps
  pub no_blank_ends : trim (to_string (of_pairs ps)) b' ' ≡ to_string (of_pairs ps)

abbrev Holds : List (Bytes × Bytes) → List (Bytes × Bytes) → Type 0
Holds hash = All (λ p. Dict.get hash p.0 ≡ some p.1)

Holds-cons :
    (k v : Bytes) (hash ps : List (Bytes × Bytes))
    → Dict.get hash k ≡ none
    → Holds hash ps
    → Holds ((k, v) ∷ hash) ps
Holds-cons k v hash [] n h = tt
Holds-cons k v hash ((j, w) ∷ ps) n h =
    (unfold Dict.get in ground (arith, str_eq_iff k j), Holds-cons k v hash ps n h.1)

Holds-self : (ps : List (Bytes × Bytes)) → Distinct ps → Holds ps ps
Holds-self [] d = tt
Holds-self ((k, v) ∷ ps) d =
    (unfold Dict.get in rw (str_eq_refl k), Holds-cons k v ps ps d.0 (Holds-self ps d.1))

pieces-Holds :
    (hash ps : List (Bytes × Bytes)) (p : Bytes × Bytes)
    → Holds hash (p ∷ ps)
    → pieces hash (names (p ∷ ps)) ≡ join (parts (p ∷ ps)) b'/' ++ b'/' ∷ []
unfolding pieces join
pieces-Holds hash [] (k, v) h = rw h.0 (simp (append_assoc, append-nil))
pieces-Holds hash (q ∷ ps) (k, v) h =
    rw h.0
      (ap (λ r. (k ++ b'/' ∷ v ++ b'/' ∷ []) ++ r) (pieces-Holds hash ps q h.1) ∙ simp append_assoc)

to_string-join :
    (p : Bytes × Bytes) (ps : List (Bytes × Bytes))
    → Distinct (p ∷ ps)
    → to_string (of_pairs (p ∷ ps)) ≡ join (parts (p ∷ ps)) b'/'
unfolding to_string
to_string-join p ps d =
    ap (λ s. trim_suffix s b'/') (pieces-Holds (p ∷ ps) ps p (Holds-self (p ∷ ps) d))
    ∙ trim_suffix-append (join (parts (p ∷ ps)) b'/') b'/'

pairs-parts : (ps : List (Bytes × Bytes)) → pairs (parts ps) ≡ some ps
unfolding pairs
pairs-parts [] = refl
pairs-parts ((k, v) ∷ ps) = rw (pairs-parts ps)

abbrev Apart : List (Bytes × Bytes) → List (Bytes × Bytes) → Type 0
Apart hash = All (λ p. Dict.get hash p.0 ≡ none)

Apart-put :
    (hash ps : List (Bytes × Bytes)) (k v : Bytes)
    → Dict.get ps k ≡ none
    → Apart hash ps
    → Apart (Dict.put hash k v) ps
Apart-put hash [] k v n h = tt
Apart-put hash ((j, w) ∷ ps) k v n h = (
  unfold Dict.get in ground (arith, Dict.get-put hash k j v, str_eq_iff k j, str_eq_iff j k),
  Apart-put hash ps k v (unfold Dict.get in ground arith) h.1,
)

names-append : (hash ps : List (Bytes × Bytes)) → names (hash ++ ps) ≡ names hash ++ names ps
names-append [] ps = refl
names-append ((k, v) ∷ hash) ps = ap (λ l. k ∷ l) (names-append hash ps)

-- The loop of MakeTags on distinct names only appends.
fill-Apart :
    (ps hash : List (Bytes × Bytes))
    → Distinct ps
    → Apart hash ps
    → fill ps hash (names hash) ≡ record { hash = some (hash ++ ps); list = names (hash ++ ps) }
unfolding fill
fill-Apart [] hash d h = rw (append-nil hash)
fill-Apart ((k, v) ∷ ps) hash d h = rw (Dict.put_new hash k v h.0) (
    rw (← names-append hash ((k, v) ∷ [])) (
      fill-Apart ps (hash ++ (k, v) ∷ []) d.1
        (rw (Dict.put_new hash k v h.0) at (Apart-put hash ps k v d.0 h.1))
      ∙ rw (append_assoc hash ((k, v) ∷ []) ps)))

Apart-nil : (ps : List (Bytes × Bytes)) → Apart [] ps
Apart-nil [] = tt
Apart-nil (p ∷ ps) = (unfold Dict.get in refl, Apart-nil ps)

parts-Lacks :
    (ps : List (Bytes × Bytes))
    → All (λ p. Lacks b'/' p.0 × Lacks b'/' p.1) ps
    → All (Lacks b'/') (parts ps)
parts-Lacks [] h = tt
parts-Lacks ((k, v) ∷ ps) h = (h.0.0, (h.0.1, parts-Lacks ps h.1))

make_tags-trimmed :
    (s : Bytes) → trim s b' ' ≡ s → s ≢ [] → make_tags s ≡ fill_all (pairs (split s b'/'))
unfolding make_tags
make_tags-trimmed s t n = rw t (ground (arith, str_eq_iff s []))

join-ne-nil : (k v : Bytes) (l : List Bytes) → join (k ∷ v ∷ l) b'/' ≢ []
unfolding join
join-ne-nil [] v l = ground arith
join-ne-nil (c ∷ k) v l = ground arith

make_tags-parts :
    (p : Bytes × Bytes) (ps : List (Bytes × Bytes)) (s : Bytes)
    → s ≡ join (parts (p ∷ ps)) b'/'
    → trim s b' ' ≡ s
    → Distinct (p ∷ ps)
    → All (λ p. Lacks b'/' p.0 × Lacks b'/' p.1) (p ∷ ps)
    → make_tags s ≡ ok (of_pairs (p ∷ ps))
make_tags-parts (k, v) ps s e t d l =
    make_tags-trimmed s t (rw e (join-ne-nil k v (parts ps)))
    ∙ ap (λ l. fill_all (pairs l))
        (ap (λ r. split r b'/') e ∙ split-join k (v ∷ parts ps) b'/' (parts-Lacks ((k, v) ∷ ps) l))
    ∙ ap fill_all (pairs-parts ((k, v) ∷ ps))
    ∙ unfold fill_all in ap ok (fill-Apart ((k, v) ∷ ps) [] d (Apart-nil ((k, v) ∷ ps)))

-- Tags print as a text that MakeTags reads back as the same tags, if their names are distinct, no name
-- and no value holds a slash, and the text neither begins nor ends with a blank.
pub make_tags-to_string :
    (ps : List (Bytes × Bytes))
    → IsPrintable ps
    → make_tags (to_string (of_pairs ps)) ≡ ok (of_pairs ps)
make_tags-to_string [] h = unfold make_tags to_string trim str_eq in refl
make_tags-to_string (p ∷ ps) h =
    make_tags-parts p ps (to_string (of_pairs (p ∷ ps))) (to_string-join p ps h.distinct)
      h.no_blank_ends h.distinct h.no_slash
