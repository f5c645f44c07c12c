-- ===== src/Tests/Encryption.antt =====
-- Exchanges with concrete ciphers, where the switch is on.
use damaru_server.Prelude.{String, ◌≡◌, refl, true, false, none, some, [], ◌∷◌, arith}
use damaru_server.Prelude.Exec.{Exec, ok, bad_request, throw}
use damaru_server.Repository.{lookup}
use damaru_server.Repository.Memory.{memory}
use damaru_server.Database.{Db, Encryption}
use damaru_server.Encryption.Values.{Json, text, object, field, end, get_field}
use damaru_server.Encryption.{aes_decrypt, encrypt, decrypt, key_of, get_encryption}
use damaru_server.Encryption.Laws.{decrypt-encrypt}
use damaru_server.Encryption.Interceptor.{Texts, cipher, failed, outcome, intercept}
use damaru_server.Encryption.Exchange.{payload, intercept-sealed, intercept_unencrypted}
use damaru_server.Tests.{in_memory, database}
use damaru_server.Tests.Ciphers.{ciphers, codec, greeting, greeting-Holds, padded, padded_run}

abbrev switch_on : Encryption
switch_on = record { id = "1"; enabled = true }

abbrev secured : Db
secured = record database { encryptions = switch_on ∷ [] }

on_run : get_encryption in_memory secured ≡ some switch_on
unfolding get_encryption in_memory memory lookup
on_run = refl

abbrev texts : Texts
texts = record { message = λ e. "wrong"; stack = λ e. "at" }

-- A handler that refuses every body
abbrev refuse : Json → Exec Db Json
refuse v = throw (bad_request "no")

greeting_key : key_of ciphers codec (some "key") greeting ≡ some "key"
unfolding get_field
greeting_key = refl

decrypt-encrypt_example :
    (s : String) × (encrypt ciphers codec 7 (some "key") greeting ≡ some s)
    × (decrypt ciphers codec s ≡ some greeting)
decrypt-encrypt_example =
    decrypt-encrypt ciphers codec 7 (some "key") greeting "key" greeting_key (omega arith)
      greeting-Holds

intercept-sealed_example :
    (s : String) × (intercept ciphers codec in_memory texts false false none
        (text (payload ciphers codec padded "key" greeting))
        refuse
        secured
      ≡ (ok (cipher s), (refuse greeting secured).1))
    × (aes_decrypt ciphers s "key"
        ≡ some (codec.stringify (outcome texts false (refuse greeting secured).0)))
intercept-sealed_example =
    intercept-sealed ciphers codec in_memory texts false secured switch_on on_run refl 7 "key"
      padded greeting none refuse padded_run greeting-Holds (λ e. cc)

intercept_unencrypted_example :
    (intercept ciphers codec in_memory texts true false
        (some "X-Me key")
        (object (field "name" (text "a") end))
        refuse
        secured
      ≡ (ok (failed true), secured))
    × (intercept ciphers codec in_memory texts true false none (object end) refuse secured
        ≡ (ok (failed true), secured))
intercept_unencrypted_example =
    intercept_unencrypted ciphers codec in_memory texts true secured switch_on on_run refl
      (some "X-Me key") "name" (text "a") end refuse
