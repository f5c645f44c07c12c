-- ===== src/Guards/Laws.antt =====
-- What the guards let through, and how they refuse.
use mathlib.Core.List.{Memᴰ}
use damaru_server.Prelude.{
  String, ◌≡◌, refl, sym, ap, ◌∙◌, ◌↔◌, ◌⊎◌, inl, inr, true, ◌||◌, Option, none, some, List, [],
  ◌∷◌, arith, eq_iff, ◌≢◌, Bool-cases, true_eq, eq_true,
}
use damaru_server.Prelude.Exec.{ok, err, unauthorized, ws_exception}
use damaru_server.Token.{JwtToken, super_admin, role_name, has_role}
use damaru_server.Guards.{
  super_admin_guard, Guard, single, multi, ContextType, http, ws, rpc, fits_some, is_authorized,
  authorized, can_activate, same_option, fits, emulator_admin_guard, android_admin_guard,
  android_account_guard, android_users, emulator_users,
}

-- The pairs that a guard was made with.
abbrev pairs_of : Guard → List (String × Option String)
pairs_of (single role sub_role) = (role, sub_role) ∷ []
pairs_of (multi pairs) = pairs

pub same_option_iff : (a b : Option String) → (same_option a b ≡ true) ↔ (a ≡ b)
same_option_iff none none = (λ _. refl, λ _. refl)
same_option_iff none (some t) = ground arith
same_option_iff (some s) none = ground arith
same_option_iff (some s) (some t) = ground (arith, eq_iff s t)

fits_some_sound :
    (token : JwtToken) (pairs : List (String × Option String))
    → fits_some token pairs ≡ true
    → Memᴰ (token.role, token.sub_role) pairs
unfolding fits_some
fits_some_sound token [] h = absurd (cc)
fits_some_sound token ((r, s) ∷ rest) h = elim (Bool-cases (fits token (r, s))) [
  | inl hit ↦ Memᴰ.head (ground (arith, eq_iff token.role r, same_option_iff token.sub_role s))
  | inr miss ↦ Memᴰ.tail (fits_some_sound token rest (ground arith))
]

fits_some_complete :
    (token : JwtToken) (pairs : List (String × Option String))
    → Memᴰ (token.role, token.sub_role) pairs
    → fits_some token pairs ≡ true
unfolding fits_some
fits_some_complete token [] m = elim m [ ]
fits_some_complete token ((r, s) ∷ rest) (Memᴰ.head e) =
    ground (arith, eq_iff token.role r, same_option_iff token.sub_role s, e)
fits_some_complete token ((r, s) ∷ rest) (Memᴰ.tail m) =
    ground (arith, fits_some_complete token rest m)

is_authorized-eq :
    (g : Guard) (token : JwtToken)
    → is_authorized g token ≡ (has_role token super_admin || fits_some token (pairs_of g))
unfolding is_authorized
is_authorized-eq (single r s) token = ground arith
is_authorized-eq (multi pairs) token = refl

-- The tokens that a guard is for.
abbrev pub IsAllowed : Guard → JwtToken → Type 0
IsAllowed g token =
    (token.role ≡ role_name super_admin) ⊎ Memᴰ (token.role, token.sub_role) (pairs_of g)

-- The guard of the super admins is for no one else.
pub super_guard :
    (user : JwtToken) → IsAllowed super_admin_guard user → user.role ≡ role_name super_admin
super_guard user (inl super) = super
super_guard user (inr (Memᴰ.head e)) = ap (λ (p : String × Option String). p.0) e
super_guard user (inr (Memᴰ.tail m)) = elim m [ ]

is_authorized_sound :
    (g : Guard) (token : JwtToken) → is_authorized g token ≡ true → IsAllowed g token
is_authorized_sound g token h =
    let e = sym (is_authorized-eq g token) ∙ h in
    elim (Bool-cases (has_role token super_admin)) [
      | inl super ↦ inl (true_eq super)
      | inr other ↦ inr (fits_some_sound token (pairs_of g) (ground arith))
    ]

is_authorized_complete :
    (g : Guard) (token : JwtToken) → IsAllowed g token → is_authorized g token ≡ true
is_authorized_complete g token (inl super) = is_authorized-eq g token ∙ rw (eq_true super)
is_authorized_complete g token (inr member) =
    let hit = fits_some_complete token (pairs_of g) member in
    ground (arith, is_authorized-eq g token)

pub IsAllowed-cases : (g : Guard) (token : JwtToken) → IsAllowed g token ⊎ (¬ IsAllowed g token)
IsAllowed-cases g token = elim (Bool-cases (is_authorized g token)) [
  | inl pass ↦ inl (is_authorized_sound g token pass)
  | inr stop ↦ inr (λ h. ground (arith, stop, is_authorized_complete g token h))
]

-- A guard lets a token pass exactly when the context is HTTP or WebSocket, and the token is a super
-- admin's or has a role and a sub-role that the guard was made with.
pub can_activate_iff :
    (g : Guard) (type : ContextType) (token : JwtToken)
    → (can_activate g type (some token) ≡ ok true) ↔ ((type ≢ rpc) × IsAllowed g token)
unfolding can_activate authorized
can_activate_iff g rpc token = (λ e. absurd (cc), λ h. absurd (h.0 refl))
can_activate_iff g http token = (
  λ e. (λ p. cc, is_authorized_sound g token (ground arith)),
  λ h. ground (arith, is_authorized_complete g token h.1),
)
can_activate_iff g ws token = (
  λ e. (λ p. cc, is_authorized_sound g token (ground arith)),
  λ h. ground (arith, is_authorized_complete g token h.1),
)

-- A token that a guard is not for is refused with the exception of the kind of the context, HTTP or
-- WebSocket.
pub can_activate_refusal :
    (g : Guard) (token : JwtToken)
    → ¬ IsAllowed g token
    → (can_activate g http (some token) ≡ err (unauthorized "You are not authorized"))
      × (can_activate g ws (some token) ≡ err (ws_exception "You are not authorized"))
unfolding can_activate authorized
can_activate_refusal g token h = elim (Bool-cases (is_authorized g token)) [
  | inl pass ↦ absurd (h (is_authorized_sound g token pass))
  | inr stop ↦ (rw stop, rw stop)
]

-- The guard of all Android users is open to those of the two Android guards together, and the guard of
-- the emulator users to these and to the emulator admins.
android_users_union :
    (token : JwtToken)
    → (is_authorized android_users token
        ≡ (is_authorized android_admin_guard token || is_authorized android_account_guard token))
      × (is_authorized emulator_users token
          ≡ (is_authorized android_users token || is_authorized emulator_admin_guard token))
unfolding is_authorized
android_users_union token = (ground arith, ground arith)
