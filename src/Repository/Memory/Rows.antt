-- ===== src/Repository/Memory/Rows.antt =====
-- Lists of rows with a primary key: the work of the repository in memory. Of two rows with one key
-- the first is the row of that key, so a removal drops the others too.
use damaru_server.Prelude.{
  String, ◌≡◌, refl, ◌∙◌, Bool, true, false, none, some, List, [], ◌∷◌, ◌==◌, if◌then◌else◌, Memᴰ,
  arith, eq_iff, Bool-cases, ◌⊎◌, inl, inr, eq_true,
}
use damaru_server.Repository.{lookup, revise, unless}

module _ {Row : Type 0} (key : Row → String) where
  unfoldable pub without : String → List Row → List Row
  without j [] = []
  without j (r ∷ rows) = let rest = without j rows in if key r == j then rest else r ∷ rest

  unfoldable pub remove : (Row → Bool) → List Row → List Row
  remove p [] = []
  remove p (r ∷ rows) = let rest = without (key r) (remove p rows) in if p r then rest else r ∷ rest

  unfoldable pub alter : String → (Row → Row) → List Row → List Row
  alter id f [] = []
  alter id f (r ∷ rows) = let rest = alter id f rows in if key r == id then f r ∷ rows else r ∷ rest

  lookup-without :
      (j k : String) (rows : List Row)
      → lookup key k (without j rows) ≡ (if j == k then none else lookup key k rows)
  unfolding lookup without
  lookup-without j k [] = ground arith
  lookup-without j k (r ∷ rows) =
      ground (arith, lookup-without j k rows, eq_iff (key r) j, eq_iff (key r) k, eq_iff j k)

  pub lookup-remove :
      (p : Row → Bool) (k : String) (rows : List Row)
      → lookup key k (remove p rows) ≡ unless p (lookup key k rows)
  unfolding lookup remove
  lookup-remove p k [] = refl
  lookup-remove p k (r ∷ rows) =
      ground (arith, lookup-remove p k rows, lookup-without (key r) k (remove p rows))

  mem-skipped :
      (b : Bool) (q : Row) (rows : List Row) {r : Row}
      → Memᴰ r (if b then rows else q ∷ rows)
      → Memᴰ r rows ⊎ ((b ≡ false) × (r ≡ q))
  mem-skipped true q rows m = inl m
  mem-skipped false q rows (Memᴰ.head e) = inr (refl, e)
  mem-skipped false q rows (Memᴰ.tail m) = inl m

  eq_comm : (a b : String) → (a == b) ≡ (b == a)
  eq_comm a b = ground (arith, eq_iff a b, eq_iff b a)

  mem-without :
      (j : String) (rows : List Row) {r : Row}
      → Memᴰ r (without j rows)
      → Memᴰ r rows × ((j == key r) ≡ false)
  unfolding without
  mem-without j [] m = elim m [ ]
  mem-without j (q ∷ rows) {r} m = elim (mem-skipped (key q == j) q (without j rows) m) [
    | inl old ↦ let (n, e) = mem-without j rows old in (Memᴰ.tail n, e)
    | inr (e, same) ↦ (Memᴰ.head same, rw same (eq_comm j (key q) ∙ e))
  ]

  lookup-skipped :
      (b : Bool) (q : Row) (rows : List Row) (k : String)
      → (key q == k) ≡ false
      → lookup key k (if b then rows else q ∷ rows) ≡ lookup key k rows
  unfolding lookup
  lookup-skipped true q rows k e = refl
  lookup-skipped false q rows k e = rw e

  lookup-kept :
      (b : Bool) (q : Row) (rows : List Row)
      → b ≡ false
      → lookup key (key q) (if b then rows else q ∷ rows) ≡ some q
  unfolding lookup
  lookup-kept b q rows e = rw (e, eq_true {a = key q} refl)

  -- Every row that is left is the one with its key.
  pub mem-remove :
      (p : Row → Bool) (rows : List Row) {r : Row}
      → Memᴰ r (remove p rows)
      → lookup key (key r) (remove p rows) ≡ some r
  unfolding remove
  mem-remove p [] m = elim m [ ]
  mem-remove p (q ∷ rows) {r} m = elim (mem-skipped (p q) q (without (key q) (remove p rows)) m) [
    | inl old ↦
        let (n, e) = mem-without (key q) (remove p rows) old in
        lookup-skipped (p q) q _ (key r) e
        ∙ lookup-without (key q) (key r) (remove p rows)
        ∙ rw e (mem-remove p rows n)
    | inr (e, same) ↦ rw same (lookup-kept (p q) q _ e)
  ]

  pub lookup-mem :
      (k : String) (rows : List Row) {r : Row} → lookup key k rows ≡ some r → Memᴰ r rows
  unfolding lookup
  lookup-mem k [] e = absurd (cc)
  lookup-mem k (q ∷ rows) e = elim (Bool-cases (key q == k)) [
    | inl hit ↦ Memᴰ.head (ground arith)
    | inr miss ↦ Memᴰ.tail (lookup-mem k rows (rw miss at e))
  ]

  pub lookup-alter :
      (id : String) (f : Row → Row) (k : String) (rows : List Row)
      → ((r : Row) → key (f r) ≡ key r)
      → lookup key k (alter id f rows) ≡ revise (id == k) f (lookup key k rows)
  unfolding lookup alter
  lookup-alter id f k [] keep = refl
  lookup-alter id f k (q ∷ rows) keep = ground (
    arith,
    keep q,
    lookup-alter id f k rows keep,
    eq_iff (key q) k,
    eq_iff (key q) id,
    eq_iff id k,
    eq_iff (key (f q)) k,
  )
