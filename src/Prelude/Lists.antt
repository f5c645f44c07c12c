-- ===== src/Prelude/Lists.antt =====
-- Lists: `map` and `filter` in one, as the queries use them.
use mathlib.Core.List.{List, [], ◌∷◌, Memᴰ}
use mathlib.Core.Option.{Option, none, some}
use mathlib.Core.Logic.{◌⊎◌, inl, inr}
use mathlib.Core.Path.{◌≡◌, refl}

module _ {B : Type 0} where
  abbrev add_some : Option B → List B → List B
  add_some none bs = bs
  add_some (some b) bs = b ∷ bs

  mem-add_some : (o : Option B) (bs : List B) {b : B} → Memᴰ b bs → Memᴰ b (add_some o bs)
  mem-add_some none bs m = m
  mem-add_some (some c) bs m = Memᴰ.tail m

  head-add_some : (o : Option B) (bs : List B) {b : B} → o ≡ some b → Memᴰ b (add_some o bs)
  head-add_some none bs e = absurd cc
  head-add_some (some c) bs e = Memᴰ.head cc

  from-add_some :
      (o : Option B) (bs : List B) {b : B} → Memᴰ b (add_some o bs) → (o ≡ some b) ⊎ Memᴰ b bs
  from-add_some none bs m = inr m
  from-add_some (some c) bs (Memᴰ.head same) = inl cc
  from-add_some (some c) bs (Memᴰ.tail m) = inr m

module _ {A B : Type 0} where
  -- The results of `f` on the elements that have one.
  unfoldable pub collect : (A → Option B) → List A → List B
  collect f [] = []
  collect f (a ∷ rest) = let later = collect f rest in add_some (f a) later

  pub mem-collect :
      (f : A → Option B) (as' : List A) {a : A} {b : B}
      → Memᴰ a as'
      → f a ≡ some b
      → Memᴰ b (collect f as')
  unfolding collect
  mem-collect f [] m e = elim m [ ]
  mem-collect f (c ∷ rest) {a} (Memᴰ.head same) e =
      head-add_some (f c) (collect f rest) (rw same at e)
  mem-collect f (c ∷ rest) (Memᴰ.tail m) e =
      mem-add_some (f c) (collect f rest) (mem-collect f rest m e)

  pub collect-mem :
      (f : A → Option B) (as' : List A) {b : B}
      → Memᴰ b (collect f as')
      → (a : A) × Memᴰ a as' × (f a ≡ some b)
  unfolding collect
  collect-mem f [] m = elim m [ ]
  collect-mem f (c ∷ rest) m = elim (from-add_some (f c) (collect f rest) m) [
    | inl here ↦ (c, Memᴰ.head refl, here)
    | inr there ↦ let (a, n, e) = collect-mem f rest there in (a, Memᴰ.tail n, e)
  ]
