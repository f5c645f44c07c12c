-- ===== src/Repository/Memory.antt =====
-- A repository held in memory, which fills the interface: rows in a list, new primary keys from
-- `next`, and a statement refused when the key is taken or `valid` refuses the row.
mod Rows
use Rows.{without, remove, alter, lookup-remove, mem-remove, lookup-mem, lookup-alter}
use damaru_server.Prelude.{
  String, ◌≡◌, sym, ◌∙◌, Bool, true, false, not, ◌&&◌, Option, none, some, List, [], ◌∷◌, ℕ, ◌==◌,
  if◌then◌else◌, Memᴰ, arith, eq_iff, Bool-cases, Option-cases, inl, inr,
}
use damaru_server.Repository.{
  Repository, lookup, revise, unless, affected, Revised, Inserted, Upserted,
}

module _ {Db Row : Type 0} (key : Row → String) (rows : Db → List Row) (valid : Db → Row → Bool)
    (next : Db → String) where
  select : (Row → Bool) → Db → List Row
  select p db = remove key (λ r. not (p r)) (rows db)

  first : List Row → Option Row
  first [] = none
  first (r ∷ rest) = some r

  select_one : (Row → Bool) → Db → Option Row
  select_one p db = first (select p db)

  accept : Bool → String → Row → List Row → Option Row → Option (String × List Row)
  accept ok id row table (some _) = none
  accept ok id row table none = if ok then some (id, row ∷ table) else none

  add : (String → Row) → Db → Option (String × List Row)
  unfolding accept
  add make db =
      let id = key (make (next db)) in
      let row = make id in
      accept (valid db row && key row == id) id row (rows db) (lookup key id (rows db))

  change : String → (Row → Row) → Db → Option (ℕ × List Row)
  change id f db = some (affected (lookup key id (rows db)), alter key id f (rows db))

  merge : (Row → Bool) → (Row → Row) → (String → Row) → Db → Option (List Row)
  merge p f make db = elim (select_one p db) [
    | some r ↦ some (alter key (key r) f (rows db))
    | none ↦ elim (add make db) [ none ↦ none | some (id, table) ↦ some table ]
  ]

  mem-select :
      (p : Row → Bool) (db : Db) (r : Row)
      → Memᴰ r (select p db)
      → (lookup key (key r) (rows db) ≡ some r) × (p r ≡ true)
  unfolding select
  mem-select p db r m =
      let e =
        sym (lookup-remove key (λ q. not (p q)) (key r) (rows db))
        ∙ mem-remove key (λ q. not (p q)) (rows db) m in
      (ground arith, ground arith)

  select-mem :
      (p : Row → Bool) (db : Db) (k : String) (r : Row)
      → lookup key k (rows db) ≡ some r
      → p r ≡ true
      → Memᴰ r (select p db)
  unfolding select
  select-mem p db k r e h =
      lookup-mem key k (remove key (λ q. not (p q)) (rows db))
        (rw (lookup-remove key (λ q. not (p q)) k (rows db), e) (rw h))

  mem-first : (table : List Row) {r : Row} → first table ≡ some r → Memᴰ r table
  unfolding first
  mem-first [] e = absurd (cc)
  mem-first (q ∷ rest) e = Memᴰ.head (ground arith)

  first-none : (table : List Row) {r : Row} → first table ≡ none → Memᴰ r table → ⊥
  unfolding first
  first-none [] e m = elim m [ ]
  first-none (q ∷ rest) e m = cc

  select_one-complete :
      (p : Row → Bool) (db : Db) (k : String) (r : Row)
      → select_one p db ≡ none
      → lookup key k (rows db) ≡ some r
      → p r ≡ false
  unfolding select_one
  select_one-complete p db k r e h = elim (Bool-cases (p r)) [
    | inl hit ↦ absurd (first-none (select p db) e (select-mem p db k r h hit))
    | inr miss ↦ miss
  ]

  add-eq-some :
      (make : String → Row) (db : Db) (id : String) (table : List Row)
      → add make db ≡ some (id, table)
      → (lookup key id (rows db) ≡ none)
        × (key (make id) ≡ id)
        × (valid db (make id) ≡ true)
        × (table ≡ make id ∷ rows db)
  unfolding add
  add-eq-some make db id table e =
      ground (arith, eq_iff (key (make (key (make (next db))))) (key (make (next db))))

  lookup-add :
      (make : String → Row) (db : Db) (id : String) (table : List Row)
      → add make db ≡ some (id, table)
      → (k : String)
      → lookup key k table ≡ (if id == k then some (make id) else lookup key k (rows db))
  unfolding lookup
  lookup-add make db id table e k =
      let (free, keyed, fits, same) = add-eq-some make db id table e in rw same (rw keyed)

  merge-Inserted :
      (p : Row → Bool) (f : Row → Row) (make : String → Row) (db : Db) (table : List Row)
      → select_one p db ≡ none
      → merge p f make db ≡ some table
      → (id : String) × (add make db ≡ some (id, table))
  unfolding merge
  merge-Inserted p f make db table miss e = elim (Option-cases (add make db)) [
    | inl refused ↦ absurd (ground arith)
    | inr (t, added) ↦ (t.0, ground arith)
  ]

  merge-Revised :
      (p : Row → Bool) (f : Row → Row) (make : String → Row) (db : Db) (table : List Row) (r : Row)
      → select_one p db ≡ some r
      → merge p f make db ≡ some table
      → alter key (key r) f (rows db) ≡ table
  unfolding merge
  merge-Revised p f make db table r hit e = ground arith

  lookup-change :
      (id : String) (f : Row → Row) (db : Db) (n : ℕ) (table : List Row)
      → ((r : Row) → key (f r) ≡ key r)
      → change id f db ≡ some (n, table)
      → (k : String) → lookup key k table ≡ revise (id == k) f (lookup key k (rows db))
  unfolding change
  lookup-change id f db n table keep e k =
      let same : alter key id f (rows db) ≡ table = ground arith in
      rw (sym same) (lookup-alter key id f k (rows db) keep)

  change-affected :
      (id : String) (f : Row → Row) (db : Db) (n : ℕ) (table : List Row)
      → change id f db ≡ some (n, table)
      → n ≡ affected (lookup key id (rows db))
  unfolding change
  change-affected id f db n table e = ground arith

  discard : (Row → Bool) → Db → Option (List Row)
  discard p db = some (remove key p (rows db))

  lookup-discard :
      (p : Row → Bool) (db : Db) (table : List Row)
      → discard p db ≡ some table
      → (k : String) → lookup key k table ≡ unless p (lookup key k (rows db))
  unfolding discard
  lookup-discard p db table e k =
      let same : remove key p (rows db) ≡ table = ground arith in
      rw (sym same) (lookup-remove key p k (rows db))

  merge-Upserted :
      (p : Row → Bool) (f : Row → Row) (make : String → Row) (db : Db) (table : List Row)
      → ((r : Row) → key (f r) ≡ key r)
      → merge p f make db ≡ some table
      → Upserted key p f make (valid db) (rows db) table
  merge-Upserted p f make db table keep e = elim (Option-cases (select_one p db)) [
    | inl miss ↦
        let (id, added) = merge-Inserted p f make db table miss e in
        let (free, keyed, fits, same) = add-eq-some make db id table added in
        inr (record {
          id = id;
          absent = λ k r h. select_one-complete p db k r miss h;
          free = free;
          keyed = keyed;
          valid_row = fits;
          table = lookup-add make db id table added;
        })
    | inr (r, hit) ↦
        let (stored, ok) = mem-select p db r (mem-first (select p db) (unfold select_one in hit)) in
        inl (record {
          row = r;
          stored = stored;
          matches = ok;
          table = λ k.
              rw (sym (merge-Revised p f make db table r hit e))
                (lookup-alter key (key r) f k (rows db) keep);
        })
  ]

  -- The repository in memory.
  unfoldable pub memory : Repository Db Row key rows valid
  unfolding remove alter without first select select_one accept add change discard merge lookup
      mem-select mem-first select_one-complete select-mem lookup-add add-eq-some lookup-change
      lookup-discard change-affected merge-Upserted merge-Inserted first-none merge-Revised
  memory = record {
    find_one = select_one;
    find = select;
    insert = add;
    update = change;
    delete = discard;
    find_one-sound = λ p db r e. mem-select p db r (mem-first (select p db) e);
    find_one-complete = select_one-complete;
    mem-find = mem-select;
    find-mem = select-mem;
    lookup-insert = lookup-add;
    insert-free = λ make db id table e.
        let (free, keyed, fits, same) = add-eq-some make db id table e in (free, keyed, fits);
    lookup-update = lookup-change;
    lookup-delete = lookup-discard;
    update-affected = change-affected;
    upsert = merge;
    lookup-upsert = merge-Upserted;
  }
