-- ===== src/Encryption/Laws.antt =====
-- Decryption gives back what was encrypted.
use Prim.Native.String.{◌++◌, len}
use damaru_server.Prelude.{
  ℕ, String, ◌≡◌, ◌≤◌, refl, sym, ap, ◌∙◌, Option, some, ◌==◌, true_eq, Option-cases, inl, inr,
  arith, eq_iff,
}
use damaru_server.Prelude.Exec.{ok}
use damaru_server.Prelude.Texts.{take_text, drop_text, take-append, drop-append}
use damaru_server.Repository.{lookup-key}
use damaru_server.Database.{Encryption, Db}
use damaru_server.Database.Repositories.{Repositories, encryption_key, encryption_at}
use damaru_server.Database.Statements.{update_encryption}
use damaru_server.Encryption.Values.{Json, JsonText, get_field}
use damaru_server.Encryption.{
  Crypto, DecryptedPayload, aes_encrypt, aes_decrypt, rsa_encrypt, rsa_decrypt, hybrid_decrypt,
  key_of, payload_json, encrypt, decrypt, switch, set_encryption, get_encryption, toggle_encryption,
}

module _ (C : Crypto) where
  -- A text that was encrypted with an AES key decrypts with that key.
  pub aes_decrypt-aes_encrypt : (s key : String) → aes_decrypt C (aes_encrypt C s key) key ≡ some s
  unfolding aes_decrypt aes_encrypt
  aes_decrypt-aes_encrypt s key = rw (
    C.from_base64-to_base64 (C.aes_cipher (C.sha256 key) (C.from_utf8 s)),
    C.aes_decipher-aes_cipher (C.sha256 key) (C.from_utf8 s),
    C.utf8-from_utf8 s,
  )

  rsa_decrypt-sealed :
      (draw : ℕ) (key : String) (b : C.Buffer)
      → C.public_encrypt draw (C.from_utf8 key) ≡ some b
      → rsa_decrypt C (C.to_base64 b) ≡ some key
  unfolding rsa_decrypt
  rsa_decrypt-sealed draw key b e = rw (
    C.from_base64-to_base64 b,
    C.private_decrypt-public_encrypt draw (C.from_utf8 key) b e,
    C.utf8-from_utf8 key,
  )

  module _ (J : JsonText) where
    pub hybrid_decrypt-sealed :
        (draw : ℕ) (key : String) (b : C.Buffer) (v : Json)
        → C.public_encrypt draw (C.from_utf8 key) ≡ some b
        → J.Holds v
        → hybrid_decrypt C J (C.to_base64 b ++ aes_encrypt C (J.stringify v) key)
          ≡ some (record { json = v; aes_key = key; rsa_key = C.to_base64 b })
    unfolding hybrid_decrypt
    hybrid_decrypt-sealed draw key b v e h =
        let s = aes_encrypt C (J.stringify v) key in
        let long = C.public_encrypt-length draw (C.from_utf8 key) b e in
        let head : take_text 344 (C.to_base64 b ++ s) ≡ C.to_base64 b =
          ap (λ n. take_text n (C.to_base64 b ++ s)) (sym long) ∙ take-append (C.to_base64 b) s in
        let tail : drop_text 344 (C.to_base64 b ++ s) ≡ s =
          ap (λ n. drop_text n (C.to_base64 b ++ s)) (sym long) ∙ drop-append (C.to_base64 b) s in
        rw (
          head,
          tail,
          rsa_decrypt-sealed draw key b e,
          aes_decrypt-aes_encrypt (J.stringify v) key,
          J.parse-stringify v h,
        )

    -- The routes undo one another: with a key, of the body or else of the configuration, that RSA
    -- takes, POST /encrypt answers with a text, and POST /decrypt answers that text with the body.
    pub decrypt-encrypt :
        (draw : ℕ) (default : Option String) (json : Json) (key : String)
        → key_of C J default json ≡ some key
        → len key ≤ 245
        → J.Holds json
        → (s : String) × (encrypt C J draw default json ≡ some s) × (decrypt C J s ≡ some json)
    unfolding encrypt rsa_encrypt decrypt get_field
    decrypt-encrypt draw default json key keyed short h =
        let (b, sealed) = C.public_encrypt-fits draw key short in
        let payload : DecryptedPayload = record {
          json = json;
          aes_key = key;
          rsa_key = C.to_base64 b;
        } in
        (
          C.to_base64 b ++ aes_encrypt C (J.stringify json) key,
          rw (keyed, sealed),
          rw (
            hybrid_decrypt-sealed draw key b json sealed h,
            J.parse-stringify (payload_json C J payload)
                (J.payload-Holds json key (C.to_base64 b) h),
          ),
        )

module _ (R : Repositories) where
  get_encryption-at :
      (e : Encryption) (t : Db) → encryption_at t "1" ≡ some e → get_encryption R t ≡ some e
  unfolding get_encryption
  get_encryption-at e t at = elim (Option-cases (R.encryption.find_one (λ x. x.id == "1") t)) [
    | inl missing ↦ absurd (
        ground (
          arith,
          R.encryption.find_one-complete (λ x. x.id == "1") t "1" e missing at,
          lookup-key encryption_key "1" t.encryptions at,
          eq_iff e.id "1",
        ))
    | inr (x, found) ↦
        let (here, named) = R.encryption.find_one-sound (λ x. x.id == "1") t x found in
        found ∙ sym here ∙ ap (encryption_at t) (true_eq named) ∙ at
  ]

  -- Where the switch has its row, setting it to a status that is not refused makes the row on exactly
  -- for the status "true", and keeps its other columns.
  get_encryption-set_encryption :
      (status message : String) (e : Encryption) (db t : Db)
      → encryption_at db "1" ≡ some e
      → set_encryption R status db ≡ (ok message, t)
      → get_encryption R t ≡ some (switch (status == "true") e)
  unfolding set_encryption toggle_encryption update_encryption
  get_encryption-set_encryption status message e db t stored done =
      elim (Option-cases (R.encryption.update "1" (switch (status == "true")) db)) [
        | inl refused ↦ absurd (ground (arith, refused))
        | inr ((n, rows), q) ↦
            let same : t ≡ record db { encryptions = rows } = ground (arith, q) in
            let at : encryption_at t "1" ≡ some (switch (status == "true") e) = ground (
              arith,
              R.encryption.lookup-update "1" (switch (status == "true")) db n rows (λ r. refl) q
                  "1",
              stored,
              same,
              eq_iff "1" "1",
            ) in
            get_encryption-at (switch (status == "true") e) t at
      ]
