-- ===== src/Prelude/Texts.antt =====
-- What the code takes from JavaScript's texts: `split`, `startsWith`, `substring` and `length`, by
-- characters. (JavaScript counts a character beyond the 16-bit ones as two.)
use Prim.Native.Nat.{compare}
use Prim.Native.Char.{Char, code}
use Prim.Native.String.{count, ◌++◌ as append}
use text.Mathlib.Text.{is_eq}
use text.Mathlib.TextLemmas.{append_assoc, nil-append, cons-append, length-cons}
use damaru_server.Prelude.{
  ℕ, zero, suc, ◌≡◌, ◌∙◌, refl, String, Bool, true, not, ◌&&◌, Option, none, some, List, [], ◌∷◌,
  if◌then◌else◌, arith, ap,
}

abbrev pub is_char : ℕ → Char → Bool
is_char n c = is_eq (compare (code c) n)

abbrev push : Char → List String → List String
push c [] = (String.◌∷◌ c "") ∷ []
push c (w ∷ ws) = (String.◌∷◌ c w) ∷ ws

-- `text.split(separator)` at a separator of one character
pub split : ℕ → String → List String
split sep String.[] = "" ∷ []
split sep (String.◌∷◌ c s) =
    let later = split sep s in if is_char sep c then "" ∷ later else push c later

-- `parts[1]`
abbrev pub second : List String → Option String
second (a ∷ b ∷ rest) = some b
second _ = none

-- No character of a text is the given one.
unfoldable pub lacks : ℕ → String → Bool
lacks n String.[] = true
lacks n (String.◌∷◌ c s) = not (is_char n c) && lacks n s

-- `text.substring(n)` and `text.substring(0, n)`
pub drop_text : ℕ → String → String
drop_text zero s = s
drop_text (suc n) String.[] = ""
drop_text (suc n) (String.◌∷◌ c s) = drop_text n s

pub take_text : ℕ → String → String
take_text zero s = ""
take_text (suc n) String.[] = ""
take_text (suc n) (String.◌∷◌ c s) = String.◌∷◌ c (take_text n s)

split-lacks : (n : ℕ) (s : String) → lacks n s ≡ true → split n s ≡ s ∷ []
unfolding split lacks
split-lacks n String.[] h = refl
split-lacks n (String.◌∷◌ c s) h = ground (arith, split-lacks n s)

pub drop-append : (s t : String) → drop_text (count s) (append s t) ≡ t
unfolding drop_text
drop-append String.[] t = nil-append t
drop-append (String.◌∷◌ c s) t = rw (length-cons c s, cons-append c s t) (drop-append s t)

pub take-append : (s t : String) → take_text (count s) (append s t) ≡ s
unfolding take_text
take-append String.[] t = refl
take-append (String.◌∷◌ c s) t =
    rw (length-cons c s, cons-append c s t) (ap (String.◌∷◌ c) (take-append s t))

split-append :
    (n : ℕ) (w s : String) (c : Char)
    → lacks n w ≡ true
    → is_char n c ≡ true
    → split n (append w (String.◌∷◌ c s)) ≡ w ∷ split n s
unfolding split lacks
split-append n String.[] s c h k = rw (nil-append (String.◌∷◌ c s), k)
split-append n (String.◌∷◌ d w) s c h k =
    rw (cons-append d w (String.◌∷◌ c s)) (ground (arith, split-append n w s c))

-- The words of a header `Bearer <token>`.
pub split-bearer :
    (s : String) → lacks 32 s ≡ true → split 32 (append "Bearer " s) ≡ "Bearer" ∷ s ∷ []
unfolding lacks
split-bearer s h =
    let same : append "Bearer " s ≡ append "Bearer" (String.◌∷◌ " " s) =
      append_assoc "Bearer" " " s
      ∙ ap (append "Bearer") (cons-append " " "" s ∙ ap (String.◌∷◌ " ") (nil-append s)) in
    ap (split 32) same
    ∙ split-append 32 "Bearer" s " " refl refl
    ∙ ap (λ l. "Bearer" ∷ l) (split-lacks 32 s h)
