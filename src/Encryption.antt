-- ===== src/Encryption.antt =====
-- src/core/encryption/encryption.service.ts, src/common/utils/hash.utils.ts (sha256Hash), and the routes of
-- src/modules/app/app.controller.ts: a payload is an AES key, encrypted with the server's public RSA
-- key, and the JSON text that this AES key encrypts. Node's crypto module and its buffers are a
-- parameter, as are the two keys, which stand in its RSA functions. A failure is `none`.
pub mod Values
pub mod Interceptor
pub mod Laws
pub mod Exchange
use Prim.Native.String.{◌++◌, count, len}
use damaru_server.Prelude.{
  ℕ, String, ◌≡◌, ◌≤◌, Bool, true, false, Option, none, some, ◌==◌, if◌then◌else◌,
}
use damaru_server.Prelude.Exec.{Exec, pure, ◌>>=◌, ◌>>◌}
use damaru_server.Prelude.Texts.{take_text, drop_text}
use damaru_server.Database.{Encryption, Db}
use damaru_server.Database.Repositories.{Repositories}
use damaru_server.Database.Statements.{update_encryption}
use Values.{Json, JsonText, null, text, object, field, end, get}

-- RSA encryption pads with random bytes, which stand in `draw`. Its output has 256 bytes, 344
-- characters in base64, and it takes a text of 245 bytes at most.
pub record Crypto : Type 1 where
  pub Buffer : Type 0
  pub from_utf8 : String → Buffer
  pub from_base64 : String → Buffer
  pub to_utf8 : Buffer → String
  pub to_base64 : Buffer → String
  pub sha256 : String → Buffer
  pub aes_cipher : (key bytes : Buffer) → Buffer
  pub aes_decipher : (key bytes : Buffer) → Option Buffer
  pub public_encrypt : (draw : ℕ) → Buffer → Option Buffer
  pub private_decrypt : Buffer → Option Buffer
  pub utf8-from_utf8 : (s : String) → to_utf8 (from_utf8 s) ≡ s
  pub from_base64-to_base64 : (b : Buffer) → from_base64 (to_base64 b) ≡ b
  pub aes_decipher-aes_cipher :
      (key bytes : Buffer) → aes_decipher key (aes_cipher key bytes) ≡ some bytes
  pub private_decrypt-public_encrypt :
      (draw : ℕ) (bytes sealed : Buffer)
      → public_encrypt draw bytes ≡ some sealed
      → private_decrypt sealed ≡ some bytes
  pub public_encrypt-length :
      (draw : ℕ) (bytes sealed : Buffer)
      → public_encrypt draw bytes ≡ some sealed
      → count (to_base64 sealed) ≡ 344
  pub public_encrypt-fits :
      (draw : ℕ) (s : String)
      → len s ≤ 245
      → (sealed : Buffer) × (public_encrypt draw (from_utf8 s) ≡ some sealed)

pub record DecryptedPayload : Type 0 where
  pub json : Json
  pub aes_key : String
  pub rsa_key : String

abbrev pub map_some : {A B : Type 0} → (A → B) → Option A → Option B
map_some f none = none
map_some f (some a) = some (f a)

abbrev pub and_then : {A B : Type 0} → Option A → (A → Option B) → Option B
and_then none f = none
and_then (some a) f = f a

module _ (C : Crypto) where
  pub aes_encrypt : String → String → String
  aes_encrypt plain aes_key = C.to_base64 (C.aes_cipher (C.sha256 aes_key) (C.from_utf8 plain))

  pub aes_decrypt : String → String → Option String
  aes_decrypt sealed aes_key =
      map_some C.to_utf8 (C.aes_decipher (C.sha256 aes_key) (C.from_base64 sealed))

  pub rsa_encrypt : ℕ → String → Option String
  rsa_encrypt draw key = map_some C.to_base64 (C.public_encrypt draw (C.from_utf8 key))

  pub rsa_decrypt : String → Option String
  rsa_decrypt sealed = map_some C.to_utf8 (C.private_decrypt (C.from_base64 sealed))

  module _ (J : JsonText) where
    pub hybrid_decrypt : String → Option DecryptedPayload
    unfolding rsa_decrypt aes_decrypt
    hybrid_decrypt encrypted_payload =
        let rsa_encrypted_key = take_text 344 encrypted_payload in
        let aes_encrypted_data = drop_text 344 encrypted_payload in
        and_then (rsa_decrypt rsa_encrypted_key) λ decrypted_aes_key.
          and_then (aes_decrypt aes_encrypted_data decrypted_aes_key) λ json.
            map_some
              (λ value. record {
                json = value;
                aes_key = decrypted_aes_key;
                rsa_key = rsa_encrypted_key;
              })
              (J.parse json)

    -- `jsonToEncrypt.key ?? DEFAULT_AES_KEY`. A key that is no text makes the hash throw.
    abbrev key_or : Option String → Option Json → Option String
    key_or default none = default
    key_or default (some null) = default
    key_or default (some (text key)) = some key
    key_or default (some _) = none

    abbrev pub key_of : Option String → Json → Option String
    key_of default null = none
    key_of default json = key_or default (get "key" json)

    -- POST /encrypt, with the variable DEFAULT_AES_KEY
    pub encrypt : ℕ → Option String → Json → Option String
    unfolding rsa_encrypt aes_encrypt
    encrypt draw default json_to_encrypt = and_then (key_of default json_to_encrypt) λ key.
        map_some (λ rsa_key. rsa_key ++ aes_encrypt (J.stringify json_to_encrypt) key)
          (rsa_encrypt draw key)

    abbrev pub payload_json : DecryptedPayload → Json
    payload_json p = object (
        field "data" p.json (field "aesKey" (text p.aes_key) (field "rsaKey" (text p.rsa_key) end)))

    -- POST /decrypt
    pub decrypt : String → Option Json
    unfolding hybrid_decrypt
    decrypt encrypted_text =
        and_then (hybrid_decrypt encrypted_text)
          λ p. and_then (J.parse (J.stringify (payload_json p))) (get "data")

abbrev pub switch : Bool → Encryption → Encryption
switch enabled e = record e { enabled = enabled }

abbrev shown : Bool → String
shown true = "true"
shown false = "false"

module _ (R : Repositories) where
  unfoldable pub toggle_encryption : Bool → Exec Db String
  toggle_encryption enabled = do
    update_encryption R "1" (switch enabled)
    pure ("Encryption has been set to: " ++ shown enabled)

  unfoldable pub get_encryption : Db → Option Encryption
  get_encryption = R.encryption.find_one (λ e. e.id == "1")

  -- GET /encryption/:status
  unfoldable pub set_encryption : String → Exec Db String
  unfolding toggle_encryption
  set_encryption status = toggle_encryption (status == "true")
