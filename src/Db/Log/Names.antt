-- ===== src/Db/Log/Names.antt =====
-- The name of a database stays as it is while its index is loaded.
use ii_go.Base.{
  ltb, Bool-cases, length, Bytes, ℤ, Result, ok, err, ℕ, ◌≡◌, refl, ◌∙◌, inl, inr, Bool, ◌&&◌, not,
  Option, none, some, List,
}
use ii_go.Db.Index.{MsgInfo, Entry, LoadError, Table}
use ii_go.Db.State.{Db, Panic, Exec, continue}
use ii_go.Db.Access.{entries, write_msg, is_known, put_msg, store_with, edit}
use ii_go.Dict
use ii_go.Msg.Encode.{Msg}
use ii_go.Db.Load.{
  create_index, finish, load_fresh, load_tail, first_line, load_truncated, load_existing, load_from,
  load_index,
}

module _ (sha256 : Bytes → Bytes) where
  name-finish :
      (size : ℕ) (r : Table × Option LoadError) (db : Db)
      → (finish sha256 size r db).1.name ≡ db.name
  unfolding finish
  name-finish size (t, none) db = refl
  name-finish size (t, some e) db = refl

  name-first_line :
      (o : Option (Result LoadError Entry)) (size : ℕ) (db : Db)
      → (first_line sha256 o size db).1.name ≡ db.name
  unfolding first_line
  name-first_line none size db = refl
  name-first_line (some (ok e)) size db = refl
  name-first_line (some (err e)) size db = refl

  name-load_existing :
      (file : Bytes) (hash : Option (List (Bytes × MsgInfo))) (db : Db)
      → (load_existing sha256 file hash db).1.name ≡ db.name
  unfolding load_existing load_fresh load_tail load_truncated create_index
  name-load_existing file none db = name-finish (length file) _ db
  name-load_existing file (some hash) db = elim (Bool-cases (ltb db.idx.file_size (length file))) [
    | inl more ↦ rw more (name-finish (length file) _ _)
    | inr same ↦ elim (Bool-cases (ltb (length file) db.idx.file_size)) [
      | inl less ↦ rw (same, less) (name-first_line _ (length file) _)
      | inr eq ↦ rw (same, eq)
    ]
  ]

  name-load_from : (file : Option Bytes) (db : Db) → (load_from sha256 file db).1.name ≡ db.name
  unfolding load_from load_fresh create_index
  name-load_from none db = name-finish _ _ _
  name-load_from (some file) db = name-load_existing file db.idx.hash db

  pub name-load_index : (db : Db) → (load_index sha256 db).1.name ≡ db.name
  unfolding load_index
  name-load_index db = name-load_from db.index db

  name-continue :
      {A B : Type 0} (r : Result Panic A) (f : A → Exec B) (db : Db)
      → ((a : A) → (f a db).1.name ≡ db.name)
      → (continue r f db).1.name ≡ db.name
  name-continue (ok a) f db h = h a
  name-continue (err p) f db h = refl

  name-put_msg :
      (now : ℤ) (m : Msg) (edit : Bool) (o : Option LoadError) (db : Db)
      → (put_msg sha256 now m edit o db).1.name ≡ db.name
  unfolding put_msg write_msg
  name-put_msg now m edit (some e) db = refl
  name-put_msg now m edit none db =
      elim (Bool-cases
        (is_known sha256 now (Dict.get (entries db.idx.hash) m.msg_id) && not edit)) [
          | inl e ↦ rw e
          | inr n ↦ rw n
        ]

  pub name-store_with :
      (now : ℤ) (m : Msg) (edit : Bool) (db : Db)
      → (store_with sha256 now m edit db).1.name ≡ db.name
  unfolding store_with
  name-store_with now m edit db =
      name-continue (load_index sha256 db).0 (put_msg sha256 now m edit) (load_index sha256 db).1
        (λ o. name-put_msg now m edit o (load_index sha256 db).1)
      ∙ name-load_index db
