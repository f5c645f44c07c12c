-- ===== src/Users/Queries.antt =====
-- src/modules/users/services/user.service.ts: findAll, the users with their accounts and devices.
use damaru_server.Prelude.{
  ℕ, suc, String, Bool, true, false, not, ◌||◌, Option, none, some, List, [], ◌∷◌, ◌==◌,
  if◌then◌else◌,
}
use damaru_server.Prelude.Lists.{collect}
use damaru_server.Token.{super_admin, emulator_admin, role_name}
use damaru_server.Database.{User, UserEmulator, Account, Role, Db, is_null}
use damaru_server.Database.Repositories.{Repositories, role_at}

pub record UserView : Type 0 where
  pub id : String
  pub name : String
  pub email : String
  pub pin : Option String
  pub accounts_count : ℕ
  pub emulators_count : ℕ
  pub role : String
  pub is_super_admin : Bool

-- `filter(test).length`, and the PIN of the first admin account
unfoldable count {ℓ} : {A : Type ℓ} → (A → Bool) → List A → ℕ
count p [] = 0
count p (a ∷ rest) = let later = count p rest in if p a then suc later else later

unfoldable first_pin : List Account → Option String
first_pin [] = none
first_pin (a ∷ rest) = let later = first_pin rest in if a.is_admin then some a.pin else later

abbrev is_other_role : Option Role → Bool
is_other_role none = false
is_other_role (some r) = not (r.name == role_name super_admin || r.name == role_name emulator_admin)

abbrev user_view : List Account → List UserEmulator → User → Role → UserView
user_view accounts emulators u r = record {
  id = u.id;
  name = u.name;
  email = u.email;
  pin = first_pin accounts;
  accounts_count = count (λ a. true) accounts;
  emulators_count = count (λ (l : UserEmulator). is_null l.unlinked_at) emulators;
  role = r.name;
  is_super_admin = r.name == role_name super_admin;
}

module _ (R : Repositories) where
  abbrev shown : Db → User → Option Role → Option UserView
  shown db u none = none
  shown db u (some r) = some (
      user_view (R.account.find (λ a. a.user == u.id) db)
        (R.user_emulator.find (λ l. l.user == u.id) db) u r)

  -- `findAll`
  unfoldable pub find_all : Db → List UserView
  unfolding count first_pin
  find_all db =
      collect (λ u. shown db u (role_at db u.role))
        (R.user.find (λ u. is_other_role (role_at db u.role)) db)
