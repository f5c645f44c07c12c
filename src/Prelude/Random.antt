-- ===== src/Prelude/Random.antt =====
-- src/common/utils/string.utils.ts: texts of random characters. The index `Math.floor(Math.random() * n)`
-- of each round is drawn from outside: below `n`, if `n` is not 0.
use Prim.Native.Char.{Char}
use Prim.Native.Nat.{ℕ, zero, suc, ◌+◌, ◌<◌, compare}
use Prim.Native.Char.{code}
use Prim.Native.String.{String, count, ◌++◌}
use mathlib.Core.Path.{◌≡◌, refl}
use mathlib.Core.Bool.{Bool, true, false, ◌&&◌, ◌||◌}
use text.Mathlib.Text.{is_eq}
use text.Mathlib.TextLemmas.{length-append, length-cons, cons-append, nil-append}
use native.Mathlib.Omega.{arith}

-- `text.charAt(index)`, which is empty past the end
unfoldable char_at : ℕ → String → String
char_at i String.[] = ""
char_at zero (String.◌∷◌ c s) = String.◌∷◌ c ""
char_at (suc i) (String.◌∷◌ c s) = char_at i s

abbrev same_char : Char → Char → Bool
same_char c d = is_eq (compare (code c) (code d))

-- Every character of the text is one of the set.
unfoldable has_char : Char → String → Bool
has_char c String.[] = false
has_char c (String.◌∷◌ d s) = same_char c d || has_char c s

pub all_in : String → String → Bool
unfolding has_char
all_in set String.[] = true
all_in set (String.◌∷◌ c s) = has_char c set && all_in set s

module _ (draw : ℕ → ℕ → ℕ) where
  -- The loop of `generate`, from the round `i` with `n` rounds left.
  unfoldable rounds : String → ℕ → ℕ → String → String
  unfolding char_at
  rounds set zero i result = result
  rounds set (suc n) i result = rounds set n (suc i) (result ++ char_at (draw i (count set)) set)

  pub generate : String → ℕ → String
  unfolding rounds
  generate set n = rounds set n 0 ""

  -- `generateRandomNumeric`, with the default length, and `generateRandomAlphaNumeric`
  abbrev pub digits : String
  digits = "0123456789"

  unfoldable generate_random_numeric : ℕ → String
  unfolding generate
  generate_random_numeric n = generate digits n

  unfoldable generate_random_alpha_numeric : ℕ → String
  unfolding generate
  generate_random_alpha_numeric n =
      generate "ABCDEFGHIJKLMNOPQRSTUVWXYZabcdefghijklmnopqrstuvwxyz0123456789" n

count-char_at : (i : ℕ) (s : String) → i < count s → count (char_at i s) ≡ 1
unfolding char_at
count-char_at i String.[] h = absurd (omega (arith, h))
count-char_at zero (String.◌∷◌ c s) h = length-cons c ""
count-char_at (suc i) (String.◌∷◌ c s) h = count-char_at i s (omega (arith, h, length-cons c s))

all_in-append :
    (set s t : String) → all_in set s ≡ true → all_in set t ≡ true → all_in set (s ++ t) ≡ true
unfolding all_in
all_in-append set String.[] t h k = rw (nil-append t) k
all_in-append set (String.◌∷◌ c s) t h k =
    rw (cons-append c s t) (ground (arith, h, all_in-append set s t, k))

has_char_self : (c : Char) (s : String) → has_char c (String.◌∷◌ c s) ≡ true
unfolding has_char
has_char_self c s = ground arith

-- A text is within each set that has its characters, and stays within a larger one.
all_in-cons : (d : Char) (set s : String) → all_in set s ≡ true → all_in (String.◌∷◌ d set) s ≡ true
unfolding all_in has_char
all_in-cons d set String.[] h = refl
all_in-cons d set (String.◌∷◌ c s) h = ground (arith, h, all_in-cons d set s)

char_at-in : (i : ℕ) (s : String) → all_in s (char_at i s) ≡ true
unfolding char_at all_in has_char
char_at-in i String.[] = refl
char_at-in zero (String.◌∷◌ c s) = ground arith
char_at-in (suc i) (String.◌∷◌ c s) = all_in-cons c s (char_at i s) (char_at-in i s)

module _ (draw : ℕ → ℕ → ℕ) (below : (i n : ℕ) → 0 < n → draw i n < n) (set : String)
    (some_chars : 0 < count set) where
  rounds-within :
      (n i : ℕ) (result : String)
      → all_in set result ≡ true
      → (all_in set (rounds draw set n i result) ≡ true)
        × (count (rounds draw set n i result) ≡ n + count result)
  unfolding rounds
  rounds-within zero i result h = (h, omega arith)
  rounds-within (suc n) i result h =
      let c = char_at (draw i (count set)) set in
      let (within, size) =
        rounds-within n (suc i) (result ++ c)
          (all_in-append set result c h (char_at-in (draw i (count set)) set)) in
      (
        within,
        omega (
          arith,
          size,
          length-append result c,
          count-char_at (draw i (count set)) set (below i (count set) some_chars),
        ),
      )

  -- With a set that is not empty, a text of `length` random characters has exactly `length`
  -- characters, each of them one of the set.
  pub generate-within :
      (length : ℕ)
      → (all_in set (generate draw set length) ≡ true) × (count (generate draw set length) ≡ length)
  unfolding generate all_in
  generate-within length =
      let (within, size) = rounds-within length 0 "" refl in (within, omega (arith, size))
