-- ===== src/Repository/Keys.antt =====
-- Queries by the primary key.
use damaru_server.Prelude.{
  String, ◌≡◌, sym, ◌∙◌, Bool, some, List, ◌==◌, arith, Option-cases, inl, inr, true_eq, eq_true,
}
use mathlib.Core.Path.{subst}
use damaru_server.Repository.{Repository, lookup, lookup-key}

module _ {Db Row : Type 0} {key : Row → String} {rows : Db → List Row} {valid : Db → Row → Bool}
    (R : Repository Db Row key rows valid) where
  -- `findOne` by the primary key is the row of that key.
  pub find_one-key :
      (id : String) (db : Db) → R.find_one (λ r. key r == id) db ≡ lookup key id (rows db)
  find_one-key id db = elim (Option-cases (R.find_one (λ r. key r == id) db)) [
    | inr (r, found) ↦
        let (stored, same) = R.find_one-sound (λ q. key q == id) db r found in
        found ∙ sym (subst (λ k. lookup key k (rows db) ≡ some r) (true_eq same) stored)
    | inl missing ↦ elim (Option-cases (lookup key id (rows db))) [
      | inl none' ↦ missing ∙ sym none'
      | inr (r, stored) ↦ absurd (
          ground (
            arith,
            R.find_one-complete (λ q. key q == id) db id r missing stored,
            eq_true (lookup-key key id (rows db) stored),
          ))
    ]
  ]
