-- ===== src/Tool/Clean/Laws.antt =====
-- The command clean writes, for every id in the order of first occurrence, its last line.
use ii_go.Base.{
  leb, ◌==◌, if◌then◌else◌, Bool-cases, Option-cases, Bytes, str_eq, str_eq_iff, ℤ, pos, ℕ, ◌+◌,
  ◌≤◌, ◌≡◌, refl, ap, ◌∙◌, ◌≢◌, inl, inr, Option, none, some, List, [], ◌∷◌, ◌++◌, append_assoc,
  append-nil, arith,
}
use ii_go.Dict
use ii_go.Tool.Clean.{line_id, Counts, no_counts, succ, count_id, count_line, pass1}
use ii_go.Tool.Clean.Spec.{is_of, one, count, final, count-snoc, final-snoc}

abbrev pub total : ℕ → Option ℤ
total n = if n == 0 then none else some (pos n)

-- What pass 1 knows after some lines.
pub record IsCounted (ls : List Bytes) (c : Counts) : Type 0 where
  pub hash_count : (id : Bytes) → Dict.get c.hash id ≡ total (count id ls)
  pub last_final :
      (id : Bytes) → Dict.get c.last id ≡ (if leb 2 (count id ls) then final id ls else none)
  pub dups : (id : Bytes) → count id ls ≤ c.dup + 1
  pub keys : Dict.IsMap c.hash

count_id-new :
    (l k : Bytes) (c : Counts)
    → Dict.get c.hash k ≡ none
    → count_id l k c ≡ record c { hash = Dict.put c.hash k (pos 1) }
unfolding count_id
count_id-new l k c e = rw (count_id, e)

count_id-old :
    (l k : Bytes) (c : Counts) {n : ℤ}
    → Dict.get c.hash k ≡ some n
    → count_id l k c
      ≡ record c { hash = Dict.put c.hash k (succ n); last = Dict.put c.last k l; dup = c.dup + 1 }
unfolding count_id
count_id-old l k c e = rw (count_id, e)

pub count-line :
    (id : Bytes) (ls : List Bytes) (l : Bytes) (o : Option Bytes)
    → line_id l ≡ o
    → count id (ls ++ l ∷ []) ≡ count id ls + one (is_of id o)
count-line id ls l o e = count-snoc id ls l ∙ ap (λ p. count id ls + one (is_of id p)) e

pub final-line :
    (id : Bytes) (ls : List Bytes) (l : Bytes) (o : Option Bytes)
    → line_id l ≡ o
    → final id (ls ++ l ∷ []) ≡ (if is_of id o then some l else final id ls)
final-line id ls l o e = final-snoc id ls l ∙ ap (λ p. if is_of id p then some l else final id ls) e

IsCounted-new :
    (ls : List Bytes) (l k : Bytes) (c : Counts)
    → line_id l ≡ some k
    → IsCounted ls c
    → Dict.get c.hash k ≡ none
    → IsCounted (ls ++ l ∷ []) (count_id l k c)
IsCounted-new ls l k c e h new =
    let absent : count k ls ≡ 0 = ground (arith, h.hash_count k) in
    rw (count_id-new l k c new) (record {
      hash_count = λ id. elim (Bool-cases (str_eq k id)) [
        | inl same ↦
            let eq = (str_eq_iff k id).0 same in
            ground (
              arith,
              Dict.get-put c.hash k id (pos 1),
              count-line id ls l (some k) e,
              ap (λ i. count i ls) eq,
            )
        | inr other ↦ ground (
          arith,
          Dict.get-put c.hash k id (pos 1),
          count-line id ls l (some k) e,
          h.hash_count id,
        )
      ];
      last_final = λ id. elim (Bool-cases (str_eq k id)) [
        | inl same ↦
            let eq = (str_eq_iff k id).0 same in
            ground (arith, h.last_final id, count-line id ls l (some k) e, ap (λ i. count i ls) eq)
        | inr other ↦
            ground
              (arith, h.last_final id, count-line id ls l (some k) e, final-line id ls l (some k) e)
      ];
      dups = λ id. elim (Bool-cases (str_eq k id)) [
        | inl same ↦
            let eq = (str_eq_iff k id).0 same in
            ground (arith, count-line id ls l (some k) e, ap (λ i. count i ls) eq)
        | inr other ↦ ground (arith, count-line id ls l (some k) e, h.dups id)
      ];
      keys = Dict.put-IsMap c.hash k (pos 1) h.keys;
    })

IsCounted-old :
    (ls : List Bytes) (l k : Bytes) (c : Counts) (n : ℤ)
    → line_id l ≡ some k
    → IsCounted ls c
    → Dict.get c.hash k ≡ some n
    → IsCounted (ls ++ l ∷ []) (count_id l k c)
IsCounted-old ls l k c n e h old =
    let there : count k ls ≢ 0 = ground (arith, h.hash_count k) in
    let is_n : n ≡ pos (count k ls) = ground (arith, h.hash_count k) in
    rw (count_id-old l k c old) (record {
      hash_count = λ id. elim (Bool-cases (str_eq k id)) [
        | inl same ↦
            let eq = (str_eq_iff k id).0 same in
            rw (Dict.get-put c.hash k id (succ n), same, is_n, count-line id ls l (some k) e)
              (ground (arith, ap (λ i. count i ls) eq))
        | inr other ↦ ground (
          arith,
          Dict.get-put c.hash k id (succ n),
          count-line id ls l (some k) e,
          h.hash_count id,
        )
      ];
      last_final = λ id. elim (Bool-cases (str_eq k id)) [
        | inl same ↦
            let eq = (str_eq_iff k id).0 same in
            ground (
              arith,
              Dict.get-put c.last k id l,
              final-line id ls l (some k) e,
              count-line id ls l (some k) e,
              ap (λ i. count i ls) eq,
            )
        | inr other ↦ ground (
          arith,
          Dict.get-put c.last k id l,
          h.last_final id,
          count-line id ls l (some k) e,
          final-line id ls l (some k) e,
        )
      ];
      dups = λ id. ground (arith, count-line id ls l (some k) e, h.dups id);
      keys = Dict.put-IsMap c.hash k (succ n) h.keys;
    })

IsCounted-line :
    (ls : List Bytes) (l : Bytes) (o : Option Bytes) (c : Counts)
    → line_id l ≡ o
    → IsCounted ls c
    → IsCounted (ls ++ l ∷ []) (count_line l o c)
unfolding count_line
IsCounted-line ls l none c e h = record {
  hash_count = λ id. ground (arith, h.hash_count id, count-line id ls l none e);
  last_final =
      λ id. ground (arith, h.last_final id, count-line id ls l none e, final-line id ls l none e);
  dups = λ id. omega (arith, h.dups id, count-line id ls l none e);
  keys = h.keys;
}
IsCounted-line ls l (some k) c e h = elim (Option-cases (Dict.get c.hash k)) [
  | inl new ↦ IsCounted-new ls l k c e h new
  | inr (n, old) ↦ IsCounted-old ls l k c n e h old
]

pub IsCounted-pass1 :
    (before ls : List Bytes) (c : Counts)
    → IsCounted before c
    → IsCounted (before ++ ls) (pass1 ls c)
unfolding pass1
IsCounted-pass1 before [] c h = rw (append-nil before) h
IsCounted-pass1 before (l ∷ ls) c h = rw (← append_assoc before (l ∷ []) ls) (
    IsCounted-pass1 (before ++ l ∷ []) ls (count_line l (line_id l) c)
      (IsCounted-line before l (line_id l) c refl h))

pub IsCounted-start : IsCounted [] no_counts
unfolding count final Dict.IsMap Dict.get
IsCounted-start = record {
  hash_count = λ id. refl;
  last_final = λ id. refl;
  dups = λ id. omega arith;
  keys = tt;
}
