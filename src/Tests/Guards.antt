-- ===== src/Tests/Guards.antt =====
-- The guards on tokens.
use damaru_server.Prelude.{◌≡◌, ◌≢◌, ◌↔◌, true, some, arith, Memᴰ, inl, inr, eq_true, eq_iff, ap}
use damaru_server.Prelude.Exec.{ok}
use damaru_server.Guards.{rpc, ws, can_activate, android_admin_guard, android_users}
use damaru_server.Guards.Laws.{IsAllowed, can_activate_iff}
use damaru_server.Tests.{guest_token}

can_activate_iff_example :
    (can_activate android_users ws (some guest_token) ≡ ok true)
    ↔ ((ws ≢ rpc) × IsAllowed android_users guest_token)
can_activate_iff_example = can_activate_iff android_users ws guest_token

guest_refused : ¬ IsAllowed android_admin_guard guest_token
guest_refused (inl super) = cc (eq_true super)
guest_refused (inr (Memᴰ.head e)) =
    ground (arith, ap (λ p. p.1) e, eq_iff "AndroidAccount" "AndroidAdmin")
guest_refused (inr (Memᴰ.tail m)) = elim m [ ]
