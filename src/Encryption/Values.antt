-- ===== src/Encryption/Values.antt =====
-- The values that the code reads from JSON and writes to it. `JSON.parse` and `JSON.stringify` are
-- the runtime's, so they are parameters.
use damaru_server.Prelude.{String, ◌≡◌, Bool, Option, none, some, ◌==◌, if◌then◌else◌}

-- A number by its text.
mutual
  pub data Json : Type 0 where
    null : Json
    boolean : Bool → Json
    number : String → Json
    text : String → Json
    array : Elements → Json
    object : Fields → Json

  pub data Elements : Type 0 where
    last : Elements
    item : Json → Elements → Elements

  pub data Fields : Type 0 where
    end : Fields
    field : String → Json → Fields → Fields

-- `value.name` on an object, and `undefined` on any other value
unfoldable pub get_field : String → Fields → Option Json
get_field name end = none
get_field name (field n v rest) =
    let later = get_field name rest in if n == name then some v else later

abbrev pub get : String → Json → Option Json
get name (object fields) = get_field name fields
get name _ = none

-- `Holds` are the values that JavaScript can hold, with each key of an object once, in the order of the
-- keys: for them the two functions are inverse. An object with three given keys is one of them.
pub record JsonText : Type 1 where
  pub parse : String → Option Json
  pub stringify : Json → String
  pub Holds : Json → Type 0
  pub parse-Holds : (s : String) (v : Json) → parse s ≡ some v → Holds v
  pub parse-stringify : (v : Json) → Holds v → parse (stringify v) ≡ some v
  pub payload-Holds :
      (json : Json) (aes_key rsa_key : String)
      → Holds json
      → Holds (
          object
            (field "data" json (field "aesKey" (text aes_key) (field "rsaKey" (text rsa_key) end))))
