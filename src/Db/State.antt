-- ===== src/Db/State.antt =====
-- ii/db.go: the state of a DB with its files, and the monad of the methods. Only the absence of a file
-- is modelled of what can go wrong with files: opening, reading and writing succeed.
pub mod Files
pub mod Ends
use ii_go.Base.{Bytes, Result, ok, err, Option}
use ii_go.Db.Index.{Index}

-- `none` is a file that does not exist.
pub record Db : Type 0 where
  pub name : Bytes
  pub bundle : Option Bytes
  pub index : Option Bytes
  pub idx : Index

-- What ends the goroutine: a write to a nil map, a nil pointer, an index out of range, a division by
-- zero, an image of impossible size.
pub data Panic : Type 0 where
  nil_map nil_pointer index_out_of_range divide_by_zero huge_image : Panic

abbrev pub Exec : Type 0 → Type 0
Exec A = Db → Result Panic A × Db

abbrev pub continue : {A B : Type 0} → Result Panic A → (A → Exec B) → Exec B
continue (ok a) f db = f a db
continue (err p) f db = (err p, db)

infixl 5 ◌>>=◌ ◌>>◌
abbrev pub ◌>>=◌ : {A B : Type 0} → Exec A → (A → Exec B) → Exec B
◌>>=◌ m f db = continue (m db).0 f (m db).1

abbrev pub ◌>>◌ : {B : Type 0} → Exec (Unit {0}) → Exec B → Exec B
m >> k = m >>= λ _. k

abbrev pub pure : {A : Type 0} → A → Exec A
pure a db = (ok a, db)

abbrev pub fault : {A : Type 0} → Panic → Exec A
fault p db = (err p, db)

abbrev pub gets : {A : Type 0} → (Db → A) → Exec A
gets f db = (ok (f db), db)

abbrev pub modify : (Db → Db) → Exec (Unit {0})
modify f db = (ok tt, f db)
