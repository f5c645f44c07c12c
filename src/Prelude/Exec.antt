-- ===== src/Prelude/Exec.antt =====
-- Async methods that write to the database and may throw. What was written before a throw stays
-- written, so the state stands beside the exception too.
use Prim.Native.Nat.{ℕ}
use Prim.Native.String.{String}
use mathlib.Core.Path.{◌≡◌, refl, sym, ap, subst, ◌∙◌}
use mathlib.Core.Bool.{Bool, true, false}
use mathlib.Core.Logic.{◌⊎◌, inl, inr}
use mathlib.Core.Option.{Option, none, some}
use mathlib.Core.List.{List, [], ◌∷◌, Memᴰ}

-- The exceptions of the framework that the code throws, the TypeError of a property read on `null`,
-- and the error of a statement that the database refuses.
pub data Exception : Type 0 where
  http_exception : String → ℕ → Exception
  not_found unauthorized bad_request ws_exception : String → Exception
  type_error query_failed : Exception

pub data Result {ℓ} (A : Type ℓ) : Type ℓ where
  ok : A → Result A
  err : Exception → Result A

ok-injective : {A : Type 0} (a b : A) → ok a ≡ ok b → a ≡ b
ok-injective a b e = cc

abbrev pub Exec {ℓ} : Type ℓ → Type ℓ → Type ℓ
Exec S A = S → Result A × S

module _ {ℓ} {S A : Type ℓ} where
  abbrev pub pure : A → Exec S A
  pure a s = (ok a, s)

  abbrev pub throw : Exception → Exec S A
  throw e s = (err e, s)

  abbrev pub gets : (S → A) → Exec S A
  gets f s = (ok (f s), s)

  -- A property read on the result of a query, which may be `null`.
  abbrev pub non_null : Option A → Exec S A
  non_null none s = (err type_error, s)
  non_null (some a) s = (ok a, s)

module _ {ℓ} {S A B : Type ℓ} where
  abbrev pub continue : Result A × S → (A → Exec S B) → Result B × S
  continue (ok a, s) f = f a s
  continue (err e, s) f = (err e, s)

  infixl 10 ◌>>=◌ ◌>>◌
  abbrev pub ◌>>=◌ : Exec S A → (A → Exec S B) → Exec S B
  ◌>>=◌ m f s = continue (m s) f

  abbrev pub ◌>>◌ : Exec S A → Exec S B → Exec S B
  ◌>>◌ m n s = continue (m s) (λ _. n)

module _ {S : Type 0} where
  abbrev pub skip : Exec S (Unit {0})
  skip s = (ok tt, s)

  -- `if (test) { … }` with nothing behind it.
  abbrev pub when : Bool → Exec S (Unit {0}) → Exec S (Unit {0})
  when true m s = m s
  when false m s = (ok tt, s)

  -- `if (found) { … }` on the result of a query.
  abbrev pub when_some : {A : Type 0} → Option A → (A → Exec S (Unit {0})) → Exec S (Unit {0})
  when_some none f s = (ok tt, s)
  when_some (some a) f s = f a s

  -- `try { … } catch (e) { console.log(…) }`
  abbrev pub logged : Result (Unit {0}) × S → Result (Unit {0}) × S
  logged (r, s) = (ok tt, s)

  pub logged-returns : (r : Result (Unit {0}) × S) → (logged r).0 ≡ ok tt
  logged-returns (r, s) = refl

  abbrev pub try_log : Exec S (Unit {0}) → Exec S (Unit {0})
  try_log m s = logged (m s)

  -- `for (const x of xs) { … }`
  unfoldable pub for_each : {A : Type 0} → (A → Exec S (Unit {0})) → List A → Exec S (Unit {0})
  for_each f [] s = (ok tt, s)
  for_each f (x ∷ xs) s = continue (f x s) (λ _. for_each f xs)

  -- The same for a list that the body of a request may lack: `for (const x of undefined)` throws.
  abbrev pub for_of : {A : Type 0} → (A → Exec S (Unit {0})) → Option (List A) → Exec S (Unit {0})
  for_of f none s = (err type_error, s)
  for_of f (some xs) s = for_each f xs s

-- A block that returns has run each of its steps.
pub continue-eq-ok {ℓ} :
    {S : Type ℓ} {A : Type ℓ} {B : Type ℓ} (r : Result A × S) (f : A → S → Result B × S) (b : B)
    (t : S)
    → continue r f ≡ (ok b, t)
    → (a : A) × (s : S) × (r ≡ (ok a, s)) × (f a s ≡ (ok b, t))
continue-eq-ok (ok a, s) f b t e = (a, s, refl, e)
continue-eq-ok (err x, s) f b t e = cc

-- A block that throws has thrown in its first step or after it.
pub continue-eq-err :
    {S A B : Type 0} (r : Result A × S) (f : A → S → Result B × S) (x : Exception) (t : S)
    → continue r f ≡ (err x, t)
    → (r ≡ (err x, t)) ⊎ ((a : A) × (s : S) × (r ≡ (ok a, s)) × (f a s ≡ (err x, t)))
continue-eq-err (ok a, s) f x t e = inr (a, s, refl, e)
continue-eq-err (err y, s) f x t e = inl cc

pub continue-ok :
    {S A B : Type 0} (r : Result A × S) (f : A → S → Result B × S) (a : A)
    → r.0 ≡ ok a
    → (s : S) × (continue r f ≡ f a s)
continue-ok (ok b, s) f a e = (s, ap (λ x. f x s) (ok-injective b a e))
continue-ok (err x, s) f a e = absurd (cc)

pub last-eq-ok :
    {S A : Type 0} (r : Result A × S) {t : S}
    → continue r (λ _. skip) ≡ (ok tt, t)
    → (a : A) × (r ≡ (ok a, t))
last-eq-ok (ok a, s) e = (a, cc)
last-eq-ok (err x, s) e = absurd (cc)

pub non_null-eq-ok :
    {S A : Type 0} (o : Option A) (s : S) {a : A} {t : S}
    → non_null o s ≡ (ok a, t)
    → (o ≡ some a) × (t ≡ s)
non_null-eq-ok none s e = absurd (cc)
non_null-eq-ok (some b) s e = (cc, cc)

-- How a run ends: in a state with `P`, or with an exception `e` in a state with `E e`.
abbrev pub Ends {ℓ} :
    {S A : Type 0} → (S → Type ℓ) → (Exception → S → Type ℓ) → Result A × S → Type ℓ
Ends P E (ok a, s) = P s
Ends P E (err e, s) = E e s

module _ {ℓ} {S A : Type 0} (f : A → Exec S (Unit {0})) where
  module _ (P : S → Type ℓ) (E : Exception → S → Type ℓ) where
    Ends-continue :
        (r : Result (Unit {0}) × S) (k : S → Result (Unit {0}) × S)
        → Ends P E r
        → ((s : S) → P s → Ends P E (k s))
        → Ends P E (continue r (λ _. k))
    Ends-continue (ok u, s) k h next = next s h
    Ends-continue (err e, s) k h next = h

    -- The rule of a loop: each round keeps `P`, or ends the loop with `E`.
    pub for_each-Ends :
        ((x : A) (s : S) → P s → Ends P E (f x s))
        → (xs : List A) (s : S) → P s
        → Ends P E (for_each f xs s)
    unfolding for_each
    for_each-Ends keep [] s h = h
    for_each-Ends keep (x ∷ xs) s h =
        Ends-continue (f x s) (for_each f xs) (keep x s h) (for_each-Ends keep xs)

  module _ (Q : A → S → Type ℓ) (I : S → Type ℓ)
      (done : (x : A) (s t : S) → I s → f x s ≡ (ok tt, t) → Q x t × I t)
      (stays : (x y : A) (s t : S) → I s → Q x s → f y s ≡ (ok tt, t) → Q x t) where
    -- What a round has established stays to the end of the loop.
    for_each-stays :
        (x : A) (ys : List A) (s t : S) → I s → Q x s → for_each f ys s ≡ (ok tt, t) → Q x t
    unfolding for_each
    for_each-stays x [] s t i q e = subst (Q x) (ap (λ p. p.1) e) q
    for_each-stays x (y ∷ ys) s t i q e =
        let (_, u, first, rest) = continue-eq-ok (f y s) (λ _. for_each f ys) tt t e in
        for_each-stays x ys u t (done y s u i first).1 (stays x y s u i q first) rest

    -- Each element of the list has had its round.
    pub for_each-all :
        (xs : List A) (s t : S) → I s → for_each f xs s ≡ (ok tt, t) → (x : A) → Memᴰ x xs → Q x t
    unfolding for_each
    for_each-all [] s t i e x m = elim m [ ]
    for_each-all (y ∷ ys) s t i e x (Memᴰ.head p) =
        let (_, u, first, rest) = continue-eq-ok (f y s) (λ _. for_each f ys) tt t e in
        let (q, j) = done y s u i first in
        for_each-stays x ys u t j (subst (λ z. Q z u) (sym p) q) rest
    for_each-all (y ∷ ys) s t i e x (Memᴰ.tail m) =
        let (_, u, first, rest) = continue-eq-ok (f y s) (λ _. for_each f ys) tt t e in
        for_each-all ys u t (done y s u i first).1 rest x m

pub Ends-of {ℓ} :
    {S A : Type 0} (P : S → Type ℓ) (E : Exception → S → Type ℓ) (r : Result A × S)
    → ((a : A) (s : S) → r ≡ (ok a, s) → P s)
    → ((e : Exception) (s : S) → r ≡ (err e, s) → E e s)
    → Ends P E r
Ends-of P E (ok a, s) p q = p a s refl
Ends-of P E (err e, s) p q = q e s refl

-- The rule of a block: a step, then the rest from where the step returned.
pub Ends-bind {ℓ} :
    {S A B : Type 0} (P : S → Type ℓ) (E : Exception → S → Type ℓ) (r : Result A × S)
    (f : A → S → Result B × S)
    → ((a : A) (s : S) → r ≡ (ok a, s) → Ends P E (f a s))
    → ((e : Exception) (s : S) → r ≡ (err e, s) → E e s)
    → Ends P E (continue r f)
Ends-bind P E (ok a, s) f p q = p a s refl
Ends-bind P E (err e, s) f p q = q e s refl

-- What holds however a run ends.
Ends-keeps {ℓ} : {S A : Type 0} (P : S → Type ℓ) (r : Result A × S) → Ends P (λ _. P) r → P r.1
Ends-keeps P (ok a, s) h = h
Ends-keeps P (err e, s) h = h

keeps-Ends {ℓ} : {S A : Type 0} (P : S → Type ℓ) (r : Result A × S) → P r.1 → Ends P (λ _. P) r
keeps-Ends P (ok a, s) h = h
keeps-Ends P (err e, s) h = h

-- What each round keeps, however it ends, the loop keeps.
pub for_each-keeps {ℓ} :
    {S A : Type 0} (P : S → Type ℓ) (f : A → Exec S (Unit {0}))
    → ((x : A) (s : S) → P s → P (f x s).1)
    → (xs : List A) (s : S) → P s
    → P (for_each f xs s).1
for_each-keeps P f keep xs s h =
    Ends-keeps P (for_each f xs s)
      (for_each-Ends f P (λ _. P) (λ x u k. keeps-Ends P (f x u) (keep x u k)) xs s h)

-- A loop of rounds that return returns.
pub for_each-returns :
    {S A : Type 0} (f : A → Exec S (Unit {0}))
    → ((x : A) (s : S) → (f x s).0 ≡ ok tt)
    → (xs : List A) (s : S) → (for_each f xs s).0 ≡ ok tt
unfolding for_each
for_each-returns f returns [] s = refl
for_each-returns f returns (x ∷ xs) s =
    let (t, same) = continue-ok (f x s) (λ _. for_each f xs) tt (returns x s) in
    ap (λ r. r.0) same ∙ for_each-returns f returns xs t

pub for_of-keeps {ℓ} :
    {S A : Type 0} (P : S → Type ℓ) (f : A → Exec S (Unit {0}))
    → ((x : A) (s : S) → P s → P (f x s).1)
    → (xs : Option (List A)) (s : S) → P s
    → P (for_of f xs s).1
for_of-keeps P f keep none s h = h
for_of-keeps P f keep (some xs) s h = for_each-keeps P f keep xs s h

-- What both steps of a block keep, however they end, the block keeps.
pub continue-keeps {ℓ} :
    {S A B : Type 0} (P : S → Type ℓ) (r : Result A × S) (f : A → S → Result B × S)
    → P r.1
    → ((a : A) (s : S) → P s → P (f a s).1)
    → P (continue r f).1
continue-keeps P (ok a, s) f h next = next a s h
continue-keeps P (err e, s) f h next = h
