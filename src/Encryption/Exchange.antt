-- ===== src/Encryption/Exchange.antt =====
-- A client's exchange with the server: what it sends and what it can read of the answer.
use Prim.Native.String.{◌++◌, count}
use package.text.Mathlib.TextLemmas.{length-append}
use damaru_server.Prelude.{
  ℕ, String, ◌≡◌, ◌≢◌, refl, ap, Bool, true, false, Option, none, some, ◌==◌, ◌+◌, true_eq, arith,
  Bool-cases, inl, inr,
}
use damaru_server.Prelude.Exec.{Exec, ok}
use damaru_server.Database.{Db, Encryption}
use damaru_server.Database.Repositories.{Repositories}
use damaru_server.Encryption.Values.{
  Json, null, text, boolean, number, array, object, Fields, field, end, JsonText,
}
use damaru_server.Encryption.{Crypto, aes_encrypt, aes_decrypt, get_encryption}
use damaru_server.Encryption.Laws.{aes_decrypt-aes_encrypt, hybrid_decrypt-sealed}
use damaru_server.Encryption.Interceptor.{
  cipher, failed, Texts, outcome, decode, readable, intercept,
}

module _ (C : Crypto) (J : JsonText) where
  readable-value :
      (key : String) (v : Json)
      → v ≢ null
      → readable C J key v ≡ some (record { aes_key = key; body = v })
  readable-value key null h = absurd (h refl)
  readable-value key (boolean b) h = refl
  readable-value key (number n) h = refl
  readable-value key (text s) h = refl
  readable-value key (array vs) h = refl
  readable-value key (object fs) h = refl

  -- The payload of a client that chose the AES key.
  abbrev pub payload : String → String → Json → String
  payload rsa_key key v = rsa_key ++ aes_encrypt C (J.stringify v) key

  payload-full :
      (draw : ℕ) (key : String) (b : C.Buffer) (v : Json)
      → C.public_encrypt draw (C.from_utf8 key) ≡ some b
      → payload (C.to_base64 b) key v ≢ ""
  payload-full draw key b v e empty =
      let sum : count (payload (C.to_base64 b) key v)
          ≡ count (C.to_base64 b) + count (aes_encrypt C (J.stringify v) key) =
        length-append (C.to_base64 b) (aes_encrypt C (J.stringify v) key) in
      let long : count (C.to_base64 b) ≡ 344 = C.public_encrypt-length draw (C.from_utf8 key) b e in
      let none : count (payload (C.to_base64 b) key v) ≡ 0 = ap count empty in
      omega (arith, sum, long, none)

  decode-payload :
      (draw : ℕ) (key : String) (b : C.Buffer) (v : Json) (header : Option String)
      → C.public_encrypt draw (C.from_utf8 key) ≡ some b
      → J.Holds v
      → v ≢ null
      → decode C J header (text (payload (C.to_base64 b) key v))
        ≡ some (record { aes_key = key; body = v })
  unfolding decode
  decode-payload draw key b v header e h value =
      elim (Bool-cases (payload (C.to_base64 b) key v == "")) [
        | inl empty ↦ absurd (payload-full draw key b v e (true_eq empty))
        | inr full ↦ rw (
          full,
          hybrid_decrypt-sealed C J draw key b v e h,
          J.parse-stringify v h,
          readable-value key v value,
        )
      ]

  module _ (R : Repositories) (m : Texts) (is_dev : Bool) (db : Db) (e : Encryption)
      (stored : get_encryption R db ≡ some e) where
    -- The client encrypts a value `v` that is not null with an AES key that it chose, and this key with
    -- the server's public key. If encryption is switched on, the handler runs on `v`, and the answer
    -- is a text that decrypts, with the client's key, to the JSON text of what the handler returned,
    -- or of the message of its exception (with the stack in development).
    pub intercept-sealed :
        e.enabled ≡ true
        → (draw : ℕ) (key : String) (b : C.Buffer) (v : Json) (header : Option String)
          (handle : Json → Exec Db Json)
        → C.public_encrypt draw (C.from_utf8 key) ≡ some b
        → J.Holds v
        → v ≢ null
        → (s : String) × (intercept C J R m is_dev false header
              (text (payload (C.to_base64 b) key v))
              handle
              db
            ≡ (ok (cipher s), (handle v db).1))
          × (aes_decrypt C s key ≡ some (J.stringify (outcome m is_dev (handle v db).0)))
    unfolding intercept
    intercept-sealed on draw key b v header handle known h value =
        let s = aes_encrypt C (J.stringify (outcome m is_dev (handle v db).0)) key in
        (
          s,
          rw (stored, on, decode-payload draw key b v header known h value),
          aes_decrypt-aes_encrypt C (J.stringify (outcome m is_dev (handle v db).0)) key,
        )

    intercept_undecodable :
        e.enabled ≡ true
        → (header : Option String) (body : Json) (handle : Json → Exec Db Json)
        → decode C J header body ≡ none
        → intercept C J R m is_dev false header body handle db ≡ (ok (failed is_dev), db)
    unfolding intercept
    intercept_undecodable on header body handle bad = rw (stored, on, bad)

    -- If encryption is switched on, a request of a route that is not excluded gets the fixed answer,
    -- and no handler runs, if its body is a JSON object with keys, whatever its header, or if it has
    -- no body and no header `x-metadata`.
    pub intercept_unencrypted :
        e.enabled ≡ true
        → (header : Option String) (name : String) (v : Json) (rest : Fields)
          (handle : Json → Exec Db Json)
        → (intercept C J R m is_dev false header (object (field name v rest)) handle db
            ≡ (ok (failed is_dev), db))
          × (intercept C J R m is_dev false none (object end) handle db ≡ (ok (failed is_dev), db))
    unfolding decode
    intercept_unencrypted on header name v rest handle = (
      intercept_undecodable on header (object (field name v rest)) handle refl,
      intercept_undecodable on none (object end) handle refl,
    )
