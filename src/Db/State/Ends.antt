-- ===== src/Db/State/Ends.antt =====
-- Total correctness of methods: from a database with P a method ends without a fault, and its result
-- and the database it leaves satisfy Q. One rule for each way to build a method.
use mathlib.Core.Path.{subst}
use ii_go.Base.{if◌then◌else◌, Result, ok, ◌≡◌, refl, sym, Bool, true, false}
use ii_go.Db.State.{Db, Panic, Exec, continue, ◌>>=◌, pure, gets}

pub record Ends {A : Type 0} (P : Db → Type 0) (m : Exec A) (Q : A → Db → Type 0) : Type 0 where
  pub at : (db : Db) → P db → (a : A) × ((m db).0 ≡ ok a) × Q a (m db).1

pub Ends-pure :
    {A : Type 0} (P : Db → Type 0) (Q : A → Db → Type 0) (a : A)
    → ((db : Db) → P db → Q a db)
    → Ends P (pure a) Q
Ends-pure P Q a h = record { at = λ db p. (a, refl, h db p) }

pub Ends-gets :
    {A : Type 0} (P : Db → Type 0) (Q : A → Db → Type 0) (f : Db → A)
    → ((db : Db) → P db → Q (f db) db)
    → Ends P (gets f) Q
Ends-gets P Q f h = record { at = λ db p. (f db, refl, h db p) }

continue-ok :
    {A B : Type 0} (r : Result Panic A) (a : A) (f : A → Exec B) (db : Db)
    → r ≡ ok a
    → continue r f db ≡ f a db
continue-ok r a f db e = rw e

pub Ends-bind :
    {A B : Type 0} (P : Db → Type 0) (Q : A → Db → Type 0) (R : B → Db → Type 0) (m : Exec A)
    (f : A → Exec B)
    → Ends P m Q
    → ((a : A) → Ends (Q a) (f a) R)
    → Ends P (m >>= f) R
Ends-bind P Q R m f hm hf = record {
  at = λ db p.
      let (a, e, q) = hm.at db p in rw (continue-ok (m db).0 a f (m db).1 e) ((hf a).at (m db).1 q);
}

pub Ends-if :
    {A : Type 0} (P : Db → Type 0) (Q : A → Db → Type 0) (b : Bool) (m n : Exec A)
    → (b ≡ true → Ends P m Q)
    → (b ≡ false → Ends P n Q)
    → Ends P (if b then m else n) Q
Ends-if P Q true m n hm hn = hm refl
Ends-if P Q false m n hm hn = hn refl

-- What holds before can be strengthened, and what holds after weakened.
pub Ends-weaken :
    {A : Type 0} {P P' : Db → Type 0} {Q : A → Db → Type 0} {m : Exec A}
    → ((db : Db) → P' db → P db)
    → Ends P m Q
    → Ends P' m Q
Ends-weaken k h = record { at = λ db p. h.at db (k db p) }

pub Ends-imp :
    {A : Type 0} {P : Db → Type 0} {Q R : A → Db → Type 0} {m : Exec A}
    → ((a : A) (db : Db) → Q a db → R a db)
    → Ends P m Q
    → Ends P m R
Ends-imp {m = m} k h = record { at = λ db p. let (a, e, q) = h.at db p in (a, e, k a (m db).1 q) }

-- A value that was read and is known.
pub Ends-known :
    {A V : Type 0} {P : Db → Type 0} {Q : A → Db → Type 0} (f : V → Exec A) (v w : V)
    → Ends P (f v) Q
    → Ends (λ db. P db × (w ≡ v)) (f w) Q
Ends-known {P = P} {Q = Q} f v w h = record {
  at = λ db (p, e). subst (λ u. (a : _) × ((f u db).0 ≡ ok a) × Q a (f u db).1) (sym e) (h.at db p);
}

-- What does not speak of the database stays true.
pub Ends-frame :
    {A : Type 0} {P : Db → Type 0} {Q : A → Db → Type 0} {m : Exec A} (R : Type 0)
    → Ends P m Q
    → Ends (λ db. P db × R) m (λ a db. Q a db × R)
Ends-frame {m = m} R h = record { at = λ db (p, r). let (a, e, q) = h.at db p in (a, e, (q, r)) }

-- What was found out before a method may be used for it.
pub Ends-given :
    {A : Type 0} {P : Db → Type 0} {Q : A → Db → Type 0} {m : Exec A} (R : Type 0)
    → (R → Ends P m Q)
    → Ends (λ db. P db × R) m Q
Ends-given R h = record { at = λ db (p, r). (h r).at db p }
