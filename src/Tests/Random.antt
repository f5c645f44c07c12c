-- ===== src/Tests/Random.antt =====
-- A text of digits, drawn with a fixed generator.
use Prim.Native.Nat.{◌-◌}
use Prim.Native.String.{count}
use damaru_server.Prelude.{ℕ, ◌<◌, ◌≡◌, true, arith}
use damaru_server.Prelude.Random.{all_in, generate, digits, generate-within}

-- Always the last index
abbrev last_index : ℕ → ℕ → ℕ
last_index i n = n - 1

last_index-below : (i n : ℕ) → 0 < n → last_index i n < n
last_index-below i n h = omega (arith, h)

generate-within_example :
    (all_in (digits last_index) (generate last_index (digits last_index) 5) ≡ true)
    × (count (generate last_index (digits last_index) 5) ≡ 5)
generate-within_example =
    generate-within last_index last_index-below (digits last_index) (omega arith) 5
