-- ===== src/Encryption/Interceptor.antt =====
-- src/core/middlewares/EncryptionInterceptor.ts, ResponseInterceptor.ts and ExceptionHandler.ts: what
-- stands between a request and its handler. A handler gets the request's body and answers with a
-- value. A body of the content type text is a text; a request without a body has the empty object.
use damaru_server.Prelude.{String, Bool, true, false, Option, none, some, ◌==◌, if◌then◌else◌}
use damaru_server.Prelude.Exec.{Exec, Result, ok, err, Exception, gets, non_null, ◌>>=◌}
use damaru_server.Prelude.Texts.{drop_text}
use damaru_server.Accounts.{non_empty}
use damaru_server.Database.{Db}
use damaru_server.Database.Repositories.{Repositories}
use damaru_server.Encryption.Values.{
  Json, null, boolean, number, text, array, object, last, item, Fields, field, end, get, JsonText,
}
use damaru_server.Encryption.{
  Crypto, map_some, and_then, rsa_decrypt, aes_encrypt, hybrid_decrypt, get_encryption,
}

-- `Object.keys(body).length === 0`, which throws on `null`
abbrev is_bare : Json → Option Bool
is_bare null = none
is_bare (boolean b) = some true
is_bare (number n) = some true
is_bare (text s) = some (s == "")
is_bare (array last) = some true
is_bare (array (item v rest)) = some false
is_bare (object end) = some true
is_bare (object (field name v rest)) = some false

-- The AES key of the client, and the body that the handler gets.
pub record Decoded : Type 0 where
  pub aes_key : String
  pub body : Json

pub data Answer : Type 0 where
  plain : Json → Answer
  cipher : String → Answer
  -- "Failed to decrypt request parameters", with the stack or without
  failed : (with_stack : Bool) → Answer

-- The texts of an exception.
pub record Texts : Type 0 where
  pub message : Exception → String
  pub stack : Exception → String

-- `ExceptionHandler.catch`, and the answer of the interceptor's `catchError`
abbrev caught : Texts → Exception → Json
caught m e = object (
    field "status" (boolean false)
      (field "message" (text (m.message e)) (field "stack" (text (m.stack e)) end)))

abbrev exception_value : Texts → Bool → Exception → Json
exception_value m true e = caught m e
exception_value m false e =
    object (field "status" (boolean false) (field "message" (text (m.message e)) end))

abbrev pub outcome : Texts → Bool → Result Json → Json
outcome m is_dev (ok v) = v
outcome m is_dev (err e) = exception_value m is_dev e

module _ (C : Crypto) (J : JsonText) where
  abbrev from_header : Option String → Json → Option Decoded
  from_header none body = none
  from_header (some x_metadata) body =
      map_some (λ key. record { aes_key = key; body = body })
        (rsa_decrypt C (drop_text 5 x_metadata))

  -- `request.body.password` throws on `null`.
  abbrev pub readable : String → Json → Option Decoded
  readable key null = none
  readable key body = some (record { aes_key = key; body = body })

  abbrev pub from_payload : Json → Option Decoded
  from_payload (text encrypted) =
      and_then (hybrid_decrypt C J encrypted)
        λ p. and_then (J.parse (J.stringify p.json)) (readable p.aes_key)
  from_payload _ = none

  abbrev by_kind : Option Bool → Option String → Json → Option Decoded
  by_kind none header body = none
  by_kind (some true) header body = from_header (non_empty header) body
  by_kind (some false) header body = from_payload body

  -- The request's header `x-metadata` and its body; a failure is `none`.
  unfoldable pub decode : Option String → Json → Option Decoded
  decode header body = by_kind (is_bare body) header body

  module _ (R : Repositories) (m : Texts) (is_dev : Bool) where
    abbrev pub sealed : String → Result Json × Db → Result Answer × Db
    sealed key (r, t) = (ok (cipher (aes_encrypt C (J.stringify (outcome m is_dev r)) key)), t)

    abbrev pub shown : Result Json × Db → Result Answer × Db
    shown (ok v, t) = (ok (plain v), t)
    shown (err e, t) = (err e, t)

    abbrev exchange : Option Decoded → (Json → Exec Db Json) → Exec Db Answer
    exchange none handle db = (ok (failed is_dev), db)
    exchange (some d) handle db = sealed d.aes_key (handle d.body db)

    -- `intercept`, where `is_excluded` is the handler's metadata
    unfoldable pub intercept : Bool → Option String → Json → (Json → Exec Db Json) → Exec Db Answer
    intercept is_excluded header body handle = do
      found ← gets (get_encryption R)
      encryption ← non_null found
      if encryption.enabled
          then (if is_excluded
              then (λ db. shown (handle body db))
              else exchange (decode header body) handle)
          else (λ db. shown (handle body db))

  abbrev message_or : Option Json → Json
  message_or none = text "Success"
  message_or (some null) = text "Success"
  message_or (some v) = v

  abbrev with_data : Option Json → Fields
  with_data none = end
  with_data (some v) = field "data" v end

  abbrev wrapped : Json → Json
  wrapped v = object (
      field "status" (boolean true)
        (field "message" (message_or (get "message" v)) (with_data (get "data" v))))

  abbrev respond : Bool → Json → Option Json
  respond true v = J.parse (J.stringify v)
  respond false null = none
  respond false v = some (wrapped v)

  -- `ResponseInterceptor.intercept`
  unfoldable intercept_response : Repositories → Exec Db Json → Exec Db Json
  intercept_response R handle = do
    found ← gets (get_encryption R)
    value ← handle
    encryption ← non_null found
    non_null (respond encryption.enabled value)
