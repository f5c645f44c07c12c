-- ===== src/Signaling/Map.antt =====
-- The gateway's `Map`: the socket of a device or an account.
use damaru_server.Prelude.{
  String, ◌≡◌, refl, Option, none, some, List, [], ◌∷◌, if◌then◌else◌, arith, eq_iff,
}
use damaru_server.Guards.{same_option}

-- A key may be `undefined`.
abbrev pub Connections : Type 0
Connections = List (Option String × String)

unfoldable pub get : Option String → Connections → Option String
get k [] = none
get k ((j, s) ∷ rest) = if same_option j k then some s else get k rest

unfoldable pub set : Option String → String → Connections → Connections
set k s [] = (k, s) ∷ []
set k s ((j, t) ∷ rest) =
    let later = set k s rest in if same_option j k then (j, s) ∷ rest else (j, t) ∷ later

pub get-set :
    (j k : Option String) (s : String) (cs : Connections)
    → get k (set j s cs) ≡ (if same_option j k then some s else get k cs)
unfolding get set
get-set j k s [] = refl
get-set none none s ((none, t) ∷ rest) = refl
get-set none (some k) s ((none, t) ∷ rest) = refl
get-set (some j) none s ((none, t) ∷ rest) = refl
get-set (some j) (some k) s ((none, t) ∷ rest) = get-set (some j) (some k) s rest
get-set none none s ((some i, t) ∷ rest) = get-set none none s rest
get-set none (some k) s ((some i, t) ∷ rest) = ground (arith, get-set none (some k) s rest)
get-set (some j) none s ((some i, t) ∷ rest) = ground (arith, get-set (some j) none s rest)
get-set (some j) (some k) s ((some i, t) ∷ rest) =
    ground (arith, get-set (some j) (some k) s rest, eq_iff i j, eq_iff i k, eq_iff j k)
