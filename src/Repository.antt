-- ===== src/Repository.antt =====
-- TypeORM's `Repository<Entity>`, which every service is injected with: a parameter of the model.
-- A table is the collection of its rows, seen only through the primary key. The code behind a
-- repository is not in this tree, so its operations are fields, and the laws beside them are what
-- TypeORM and a SQL database document: `findOne` returns some row that matches, or null when none
-- does; `insert` stores one row under a primary key that was free; `update` changes the row of that
-- key and `delete` removes the rows that match, both touching no others. A statement that the
-- database refuses (a constraint, a lost connection) is `none`, and then nothing was written.
pub mod Memory
pub mod Keys
use damaru_server.Prelude.{
  String, ◌≡◌, Bool, true, false, Option, none, some, List, [], ◌∷◌, ℕ, ◌==◌, if◌then◌else◌, Memᴰ,
  ◌⊎◌, arith, eq_iff, Bool-cases, inl, inr,
}

module _ {Row : Type 0} (key : Row → String) where
  -- The row with a primary key.
  unfoldable pub lookup : String → List Row → Option Row
  lookup k [] = none
  lookup k (r ∷ rows) = if key r == k then some r else lookup k rows

  -- The row of a key has that key.
  pub lookup-key : (k : String) (rows : List Row) {r : Row} → lookup k rows ≡ some r → key r ≡ k
  unfolding lookup
  lookup-key k [] e = absurd (cc)
  lookup-key k (q ∷ rows) {r} e = elim (Bool-cases (key q == k)) [
    | inl hit ↦ ground (arith, eq_iff (key q) k)
    | inr miss ↦ lookup-key k rows (rw miss at e)
  ]

-- A row after an `update` of the row with the key `id`, and after a `delete` by a condition.
module _ {Row : Type 0} where
  abbrev pub revise : Bool → (Row → Row) → Option Row → Option Row
  revise _ f none = none
  revise b f (some r) = some (if b then f r else r)

  abbrev pub unless : (Row → Bool) → Option Row → Option Row
  unless p none = none
  unless p (some r) = if p r then none else some r

  -- The count of an `update` by a primary key.
  abbrev pub affected : Option Row → ℕ
  affected none = 0
  affected (some r) = 1

-- `upsert` revises a row in conflict with the new one, or inserts the new one if there is none.
module _ {Row : Type 0} (key : Row → String) (p : Row → Bool) (f : Row → Row) (make : String → Row)
    (valid : Row → Bool) (old new : List Row) where
  pub record Revised : Type 0 where
    pub row : Row
    pub stored : lookup key (key row) old ≡ some row
    pub matches : p row ≡ true
    pub table : (k : String) → lookup key k new ≡ revise (key row == k) f (lookup key k old)

  pub record Inserted : Type 0 where
    pub id : String
    pub absent : (k : String) (r : Row) → lookup key k old ≡ some r → p r ≡ false
    pub free : lookup key id old ≡ none
    pub keyed : key (make id) ≡ id
    pub valid_row : valid (make id) ≡ true
    pub table :
        (k : String) → lookup key k new ≡ (if id == k then some (make id) else lookup key k old)

  abbrev pub Upserted : Type 0
  Upserted = Revised ⊎ Inserted

-- The operations on one table of a database `Db`. A statement may depend on all of `Db` (foreign
-- keys); the write operations give the table's new rows. `valid` is what the table's constraints
-- demand of a row that is inserted.
pub record Repository (Db Row : Type 0) (key : Row → String) (rows : Db → List Row)
    (valid : Db → Row → Bool) : Type 0 where
  pub find_one : (Row → Bool) → Db → Option Row
  pub find : (Row → Bool) → Db → List Row
  pub insert : (String → Row) → Db → Option (String × List Row)
  pub update : String → (Row → Row) → Db → Option (ℕ × List Row)
  pub delete : (Row → Bool) → Db → Option (List Row)
  pub find_one-sound :
      (p : Row → Bool) (db : Db) (r : Row)
      → find_one p db ≡ some r
      → (lookup key (key r) (rows db) ≡ some r) × (p r ≡ true)
  pub find_one-complete :
      (p : Row → Bool) (db : Db) (k : String) (r : Row)
      → find_one p db ≡ none
      → lookup key k (rows db) ≡ some r
      → p r ≡ false
  pub mem-find :
      (p : Row → Bool) (db : Db) (r : Row)
      → Memᴰ r (find p db)
      → (lookup key (key r) (rows db) ≡ some r) × (p r ≡ true)
  pub find-mem :
      (p : Row → Bool) (db : Db) (k : String) (r : Row)
      → lookup key k (rows db) ≡ some r
      → p r ≡ true
      → Memᴰ r (find p db)
  pub lookup-insert :
      (make : String → Row) (db : Db) (id : String) (table : List Row)
      → insert make db ≡ some (id, table)
      → (k : String)
      → lookup key k table ≡ (if id == k then some (make id) else lookup key k (rows db))
  pub insert-free :
      (make : String → Row) (db : Db) (id : String) (table : List Row)
      → insert make db ≡ some (id, table)
      → (lookup key id (rows db) ≡ none) × (key (make id) ≡ id) × (valid db (make id) ≡ true)
  pub lookup-update :
      (id : String) (f : Row → Row) (db : Db) (n : ℕ) (table : List Row)
      → ((r : Row) → key (f r) ≡ key r)
      → update id f db ≡ some (n, table)
      → (k : String) → lookup key k table ≡ revise (id == k) f (lookup key k (rows db))
  pub lookup-delete :
      (p : Row → Bool) (db : Db) (table : List Row)
      → delete p db ≡ some table
      → (k : String) → lookup key k table ≡ unless p (lookup key k (rows db))
  pub update-affected :
      (id : String) (f : Row → Row) (db : Db) (n : ℕ) (table : List Row)
      → update id f db ≡ some (n, table)
      → n ≡ affected (lookup key id (rows db))
  pub upsert : (Row → Bool) → (Row → Row) → (String → Row) → Db → Option (List Row)
  pub lookup-upsert :
      (p : Row → Bool) (f : Row → Row) (make : String → Row) (db : Db) (table : List Row)
      → ((r : Row) → key (f r) ≡ key r)
      → upsert p f make db ≡ some table
      → Upserted key p f make (valid db) (rows db) table
