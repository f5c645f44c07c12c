-- ===== src/Environment.antt =====
-- What the services take from outside the tree besides the database: the clock, the date library
-- moment, and the configuration; and the helpers of src/common/utils over them.
use Prim.Native.String.{◌++◌}
use damaru_server.Prelude.{ℕ, String, Option, none, some, ◌==◌, if◌then◌else◌}

-- An amount that moment is given: `undefined`, a number, or a text of the configuration.
pub data Amount : Type 0 where
  undefined : Amount
  number : ℕ → Amount
  text : String → Amount

pub record Environment : Type 0 where
  -- `moment()`
  pub now : ℕ
  -- `moment(date).add(amount, unit)` and `moment(a).diff(moment(b), unit)`
  pub moment_add : ℕ → Amount → String → ℕ
  pub moment_diff : ℕ → ℕ → String → String
  -- DEFAULT_DAYS and SCREENSHOT_URL
  pub default_days : Option String
  pub screenshot_url : String

-- `DateUtils.today`
abbrev pub today : Environment → ℕ
today env = env.now

-- `DateUtils.add`
unfoldable pub add : Environment → Amount → String → Option ℕ → ℕ
add env value unit none = env.moment_add env.now value unit
add env value unit (some date) = env.moment_add date value unit

-- `DateUtils.diffInDays`
unfoldable pub diff_in_days : Environment → ℕ → ℕ → String → String
diff_in_days env date1 date2 units = env.moment_diff date1 date2 units

-- `configService.get('DEFAULT_DAYS') || 30`
unfoldable pub link_days : Environment → Amount
link_days env = elim env.default_days [
  | none ↦ number 30
  | some days ↦ if days == "" then number 30 else text days
]

-- `Utils.getDefaultScreenShot`
unfoldable pub default_screen_shot : String → Option String → String
default_screen_shot url none = url ++ "/" ++ "default.png"
default_screen_shot url (some name) = url ++ "/" ++ name
