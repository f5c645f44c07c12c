-- ===== src/Tests/Ciphers.antt =====
-- Concrete functions for the parameters of the encryption: a cipher that puts its key in front, a
-- public encryption that fills up to 344 characters, and an encoding of some values.
use Prim.Native.Nat.{◌-◌, compare}
use Prim.Native.String.{◌++◌, count, len}
use Prim.Native.String.len as len_laws
use package.text.Mathlib.TextLemmas.{length-cons}
use package.text.Mathlib.TextPositions.{len_utf8-pos}
use package.text.Mathlib.Text.{is_le}
use mathlib.Core.Path.{subst}
use damaru_server.Prelude.{
  ℕ, zero, suc, ◌+◌, ◌≤◌, String, ◌≡◌, refl, sym, ap, ◌∙◌, Bool, true, Option-cases, Option, none,
  some, if◌then◌else◌, arith, Bool-cases, inl, inr,
}
use damaru_server.Prelude.Texts.{drop_text, drop-append, is_char}
use damaru_server.Encryption.{Crypto, map_some, and_then}
use damaru_server.Encryption.Values.{Json, JsonText, text, object, field, end}

abbrev leb : ℕ → ℕ → Bool
leb a b = is_le (compare a b)

-- `n` zeros, a one, and the text
abbrev pad : ℕ → String → String
pad zero s = String.◌∷◌ "1" s
pad (suc n) s = String.◌∷◌ "0" (pad n s)

abbrev strip : String → Option String
strip String.[] = none
strip (String.◌∷◌ c s) = let later = strip s in if is_char 48 c then later else some s

abbrev seal : String → Option String
seal s = if leb (count s) 343 then some (pad (343 - count s) s) else none

strip-pad : (n : ℕ) (s : String) → strip (pad n s) ≡ some s
strip-pad zero s = refl
strip-pad (suc n) s = strip-pad n s

count-pad : (n : ℕ) (s : String) → count (pad n s) ≡ suc (n + count s)
count-pad zero s = length-cons "1" s ∙ omega arith
count-pad (suc n) s = omega (arith, length-cons "0" (pad n s), count-pad n s)

count-le-len : (s : String) → count s ≤ len s
count-le-len String.[] = omega arith
count-le-len (String.◌∷◌ c s) =
    let (k, e) = len_utf8-pos c in
    omega (arith, length-cons c s, len_laws.cons c s, e, count-le-len s)

leb-le : (a b : ℕ) → leb a b ≡ true → a ≤ b
leb-le a b h = ground (arith, h)

pub seal-strip : (s t : String) → seal s ≡ some t → strip t ≡ some s
seal-strip s t e = elim (Bool-cases (leb (count s) 343)) [
  | inl short ↦
      let same : pad (343 - count s) s ≡ t = ground (arith, short, e) in
      ap strip (sym same) ∙ strip-pad (343 - count s) s
  | inr long ↦ absurd (ground (arith, long, e))
]

pub seal-count : (s t : String) → seal s ≡ some t → count t ≡ 344
seal-count s t e = elim (Bool-cases (leb (count s) 343)) [
  | inl short ↦
      let same : pad (343 - count s) s ≡ t = ground (arith, short, e) in
      ap count (sym same) ∙ count-pad (343 - count s) s ∙ omega (arith, leb-le (count s) 343 short)
  | inr long ↦ absurd (ground (arith, long, e))
]

pub seal-fits : (s : String) → len s ≤ 245 → (t : String) × (seal s ≡ some t)
seal-fits s h =
    let fits : leb (count s) 343 ≡ true = ground (arith, h, count-le-len s) in
    (pad (343 - count s) s, rw fits)

abbrev pub ciphers : Crypto
ciphers = record {
  Buffer = String;
  from_utf8 = λ s. s;
  from_base64 = λ s. s;
  to_utf8 = λ s. s;
  to_base64 = λ s. s;
  sha256 = λ s. s;
  aes_cipher = λ key bytes. key ++ bytes;
  aes_decipher = λ key bytes. some (drop_text (count key) bytes);
  public_encrypt = λ draw bytes. seal bytes;
  private_decrypt = strip;
  utf8-from_utf8 = λ s. refl;
  from_base64-to_base64 = λ b. refl;
  aes_decipher-aes_cipher = λ key bytes. ap some (drop-append key bytes);
  private_decrypt-public_encrypt = λ draw bytes sealed e. seal-strip bytes sealed e;
  public_encrypt-length = λ draw bytes sealed e. seal-count bytes sealed e;
  public_encrypt-fits = λ draw s h. seal-fits s h;
}

-- Texts, and objects with a value and two texts, character by character.
abbrev put_text : String → String → String
put_text String.[] t = String.◌∷◌ "0" t
put_text (String.◌∷◌ c s) t = String.◌∷◌ "1" (String.◌∷◌ c (put_text s t))

abbrev take_front : String → Option (String × String)
take_front String.[] = none
take_front (String.◌∷◌ m String.[]) = if is_char 48 m then some ("", "") else none
take_front (String.◌∷◌ m (String.◌∷◌ c s)) =
    let later = take_front s in
    if is_char 48 m
    then some ("", String.◌∷◌ c s)
    else map_some (λ (p : String × String). (String.◌∷◌ c p.0, p.1)) later

abbrev put : Json → String → String
put (text s) t = String.◌∷◌ "t" (put_text s t)
put (object (field n d (field m (text a) (field k (text r) end)))) t =
    String.◌∷◌ "p" (put d (put_text a (put_text r t)))
put _ t = String.◌∷◌ "x" t

abbrev triple : Json → String → String → Json
triple d a r = object (field "data" d (field "aesKey" (text a) (field "rsaKey" (text r) end)))

abbrev take_triple : Json → String → Option (Json × String)
take_triple d s =
    and_then (take_front s) λ p. and_then (take_front p.1) λ q. some (triple d p.0 q.0, q.1)

abbrev take_json : String → Option (Json × String)
take_json String.[] = none
take_json (String.◌∷◌ c s) =
    let later = take_json s in
    if is_char 116 c
    then map_some (λ (p : String × String). (text p.0, p.1)) (take_front s)
    else (if is_char 112 c then and_then later (λ p. take_triple p.0 p.1) else none)

pub data IsPut : Json → Type 0 where
  of_text : (s : String) → IsPut (text s)
  of_triple : (d : Json) (a r : String) → IsPut d → IsPut (triple d a r)

take_front-put_text : (s t : String) → take_front (put_text s t) ≡ some (s, t)
take_front-put_text String.[] String.[] = refl
take_front-put_text String.[] (String.◌∷◌ d t) = refl
take_front-put_text (String.◌∷◌ c s) t = rw (take_front-put_text s t) refl

pub take_json-put : (v : Json) (t : String) → IsPut v → take_json (put v t) ≡ some (v, t)
take_json-put _ t (of_text s) = rw (take_front-put_text s t) refl
take_json-put _ t (of_triple d a r h) =
    rw
      (
        take_json-put d (put_text a (put_text r t)) h,
        take_front-put_text a (put_text r t),
        take_front-put_text r t,
      )
      refl

triple-IsPut :
    (d : Json) (s : String) (p : Json × String) → IsPut d → take_triple d s ≡ some p → IsPut p.0
triple-IsPut d s p h e = elim (Option-cases (take_front s)) [
  | inl missing ↦ absurd (ground (arith, missing, e))
  | inr (q, found) ↦ elim (Option-cases (take_front q.1)) [
    | inl missing ↦ absurd (ground (arith, found, missing, e))
    | inr (r, last) ↦
        let same : triple d q.0 r.0 ≡ p.0 = ground (arith, found, last, e) in
        subst IsPut same (of_triple d q.0 r.0 h)
  ]
]

take_json-IsPut : (s : String) (p : Json × String) → take_json s ≡ some p → IsPut p.0
take_json-IsPut String.[] p e = absurd cc
take_json-IsPut (String.◌∷◌ c s) p e = elim (Bool-cases (is_char 116 c)) [
  | inl is_text ↦ elim (Option-cases (take_front s)) [
    | inl missing ↦ absurd (ground (arith, is_text, missing, e))
    | inr (q, found) ↦
        let same : text q.0 ≡ p.0 = ground (arith, is_text, found, e) in
        subst IsPut same (of_text q.0)
  ]
  | inr other ↦ elim (Bool-cases (is_char 112 c)) [
    | inr unknown ↦ absurd (ground (arith, other, unknown, e))
    | inl is_object ↦ elim (Option-cases (take_json s)) [
      | inl missing ↦ absurd (ground (arith, other, is_object, missing, e))
      | inr (q, found) ↦
          triple-IsPut q.0 q.1 p (take_json-IsPut s q found)
            (ground (arith, other, is_object, found, e))
    ]
  ]
]

-- Values by their encoding
abbrev parse : String → Option Json
parse s = map_some (λ (p : Json × String). p.0) (take_json s)

pub parse-IsPut : (s : String) (v : Json) → parse s ≡ some v → IsPut v
parse-IsPut s v e = elim (Option-cases (take_json s)) [
  | inl missing ↦ absurd (ground (arith, missing, e))
  | inr (p, found) ↦
      let same : p.0 ≡ v = ground (arith, found, e) in subst IsPut same (take_json-IsPut s p found)
]

abbrev pub codec : JsonText
codec = record {
  parse = parse;
  stringify = λ v. put v "";
  Holds = IsPut;
  parse-Holds = parse-IsPut;
  parse-stringify = λ v h. rw (take_json-put v "" h);
  payload-Holds = λ d a r h. of_triple d a r h;
}

abbrev pub greeting : Json
greeting = triple (text "hi") "a" "b"

pub greeting-Holds : codec.Holds greeting
greeting-Holds = of_triple (text "hi") "a" "b" (of_text "hi")

-- The sealed key "key"
abbrev pub padded : String
padded = pad 340 "key"

pub padded_run : ciphers.public_encrypt 7 (ciphers.from_utf8 "key") ≡ some padded
padded_run = refl
