-- ===== src/Db/Query/Selected.antt =====
-- SelectIDS: what is true of every id that a query returns.
use ii_go.Base.{
  Bool-cases, drop, All, All-take, Bytes, ℤ, pos, negsuc, is_neg, abs, ℕ, zero, suc, ◌≡◌, refl, inl,
  inr, true, false, none, List, [], ◌∷◌, reverse,
}
use mathlib.Core.List.{reverse_aux}
use ii_go.Db.Index.{MsgInfo}
use ii_go.Db.Query.{Query, fits, Rows, limit, select_rows}
use ii_go.Db.Query.Laws.{hits, select_rows-hits}
use ii_go.Db.Query.Count.{accepted, hits-accepted}

pub All-drop : {A : Type 0} (P : A → Type 0) (n : ℕ) (l : List A) → All P l → All P (drop n l)
All-drop P zero l h = h
All-drop P (suc n) [] h = tt
All-drop P (suc n) (x ∷ l) h = All-drop P n l (h.1)

All-limit : {A : Type 0} (P : A → Type 0) (z : ℤ) (l : List A) → All P l → All P (limit z l)
All-limit P (pos zero) l h = h
All-limit P (pos (suc n)) l h = All-take P (suc n) l h
All-limit P (negsuc n) l h = h

All-reverse_aux :
    {A : Type 0} (P : A → Type 0) (l acc : List A) → All P l → All P acc → All P (reverse_aux l acc)
All-reverse_aux P [] acc h k = k
All-reverse_aux P (x ∷ l) acc h k = All-reverse_aux P l (x ∷ acc) (h.1) (h.0, k)

All-reverse : {A : Type 0} (P : A → Type 0) (l : List A) → All P l → All P (reverse l)
All-reverse P l h = All-reverse_aux P l [] h tt

-- The rows that a query accepts have a property.
abbrev pub Gives : Query → (Bytes → Type 0) → Rows → Type 0
Gives q P = All (λ (r : Bytes × MsgInfo). fits q r.1 ≡ true → P r.0)

All-accepted :
    (P : Bytes → Type 0) (q : Query) (rows : Rows) → Gives q P rows → All P (accepted none q rows)
All-accepted P q [] h = tt
All-accepted P q ((id, info) ∷ rows) h = elim (Bool-cases (fits q info)) [
  | inl e ↦ rw e (h.0 e, All-accepted P q rows (h.1))
  | inr e ↦ rw e (All-accepted P q rows (h.1))
]

hits-All :
    (P : Bytes → Type 0) (q : Query) (rows : Rows)
    → q.invert ≡ false
    → q.skip ≡ pos 0
    → q.count ≡ pos 0
    → Gives q P rows
    → All P (hits none q rows)
unfolding fits
hits-All P q rows i s c h =
    rw (hits-accepted none q rows i (rw c) (record { steady = λ a b info. refl }), s, c)
      (All-accepted P q rows h)

-- Every id that a query without `Skip`, `Count` and `Match` returns is of a row that its filters let pass.
pub select_rows-All :
    (P : Bytes → Type 0) (q : Query) (rows : Rows)
    → q.invert ≡ false
    → q.skip ≡ pos 0
    → q.count ≡ pos 0
    → Gives q P rows
    → All P (select_rows none q rows)
select_rows-All P q rows i s c h = rw (select_rows-hits none q rows) (
    All-limit P q.lim _ (elim (Bool-cases (is_neg q.start)) [
      | inl e ↦ rw e (
          All-reverse P _ (
            All-take P (abs q.start) _ (
              hits-All P q (reverse rows) i s c
                (All-reverse (λ (r : Bytes × MsgInfo). fits q r.1 ≡ true → P r.0) rows h))))
      | inr e ↦ rw e (All-drop P (abs q.start) _ (hits-All P q rows i s c h))
    ]))
