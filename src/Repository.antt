-- ===== src/Repository.antt =====
-- A TypeORM repository of one table, which the services of Backend/src use and do not implement. A
-- `where` clause is a test, and the values of an `update` are a change of the rows that meet it.
pub mod Rows
use farm_exc.Prelude.{
  ℕ, ◌≡◌, ◌⊎◌, Bool, true, false, not, Option, none, some, List, [], ◌∷◌, ◌++◌, map, filter, All,
  length, ◌==◌, if◌then◌else◌,
}
pub use Rows.{Among}

pub record Repository (Db Row : Type 0) : Type 0 where
  pub find_one : Db → (Row → Bool) → Option Row
  pub find : Db → (Row → Bool) → List Row
  pub count : Db → (Row → Bool) → ℕ
  pub update : Db → (Row → Bool) → (Row → Row) → Db
  -- `save` of an entity that was created, and of one that was loaded.
  pub insert : Db → Row → Db
  pub save : Db → Row → Db
  pub remove : Db → Row → Db

-- What the services rely on, for `rows` the rows of the table in the order in which they were
-- inserted, and `id` their key. Which of several rows `find_one` gives is left open.
pub record IsRepository {Db Row : Type 0} (repo : Repository Db Row) (rows : Db → List Row)
    (id : Row → ℕ) : Type 0 where
  pub found :
      (d : Db) (p : Row → Bool) (x : Row)
      → repo.find_one d p ≡ some x
      → (p x ≡ true) × Among x (rows d)
  pub not_found :
      (d : Db) (p : Row → Bool) → repo.find_one d p ≡ none → All (λ x. p x ≡ false) (rows d)
  pub listed :
      (d : Db) (p : Row → Bool) → All (λ x. (p x ≡ true) × Among x (rows d)) (repo.find d p)
  pub counted : (d : Db) (p : Row → Bool) → repo.count d p ≡ length (filter p (rows d))
  pub updated :
      (d : Db) (p : Row → Bool) (f : Row → Row)
      → rows (repo.update d p f) ≡ map (λ x. if p x then f x else x) (rows d)
  pub inserted : (d : Db) (x : Row) → rows (repo.insert d x) ≡ rows d ++ x ∷ []
  pub saved :
      (d : Db) (x : Row) → rows (repo.save d x) ≡ map (λ y. if id y == id x then x else y) (rows d)
  pub removed :
      (d : Db) (x : Row) → rows (repo.remove d x) ≡ filter (λ y. not (id y == id x)) (rows d)
