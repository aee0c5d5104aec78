-- ===== src/Scheduler.antt =====
-- backend/internal/scheduler: cron.go and one tick of the Scheduler. The cron and the time zone
-- libraries are parameters, and so are the store and the executor, which the code takes as
-- interfaces; what a tick does to them is a list of effects, oldest first.
pub mod Advance
pub mod Target
use open_cuttles.Go.{Error, message, wrapped, Result, ok, err}
use open_cuttles.Base.{
  Option, str_eq, Bool, String, ℕ, List, ◌&&◌, ◌||◌, [], ◌∷◌, ◌++◌, if◌then◌else◌, true, false,
  none, some,
}
use open_cuttles.Go.Strings.{codes, is_prefix, trim_space}
use open_cuttles.Domain.{Instance, Platform, State, TestCycle}
use Prim.Native.String.{◌++◌ as concat}

-- `parse_standard` is cron.ParseStandard and its schedule's Next, `load_location` is
-- time.LoadLocation.
pub record Calendar : Type 0 where
  pub parse_standard : String → Result (ℕ → ℕ)
  pub load_location : String → Option Error

unfoldable pub has_zone : String → Bool
unfolding is_prefix codes
has_zone spec = is_prefix (codes "CRON_TZ=") (codes spec) || is_prefix (codes "TZ=") (codes spec)

unfoldable pub in_zone : String → String → String
unfolding has_zone
in_zone spec tz = if has_zone spec then spec else concat "CRON_TZ=" (concat tz (concat " " spec))

zoned : Calendar → String → String → Result (ℕ → ℕ)
unfolding in_zone
zoned c spec tz = elim (c.load_location tz) [
  | some e ↦ err (wrapped (concat "unknown timezone \"" (concat tz "\": ")) e "")
  | none ↦ c.parse_standard (in_zone spec tz)
]

unfoldable pub parse : Calendar → String → String → Result (ℕ → ℕ)
unfolding zoned trim_space
parse c spec tz =
    if str_eq (trim_space spec) ""
    then err (message "cron spec is empty")
    else if str_eq (trim_space tz) ""
    then c.parse_standard (trim_space spec)
    else zoned c (trim_space spec) (trim_space tz)

unfoldable pub next_in : Calendar → String → String → ℕ → Result ℕ
unfolding parse
next_in c spec tz from = elim (parse c spec tz) [ ok f ↦ ok (f from) | err e ↦ err e ]

unfoldable pub valid : Calendar → String → Bool
unfolding parse
valid c spec = elim (parse c spec "") [ ok f ↦ true | err e ↦ false ]

unfoldable pub valid_timezone : Calendar → String → Bool
unfolding trim_space
valid_timezone c tz =
    if str_eq (trim_space tz) ""
    then true
    else elim (c.load_location (trim_space tz)) [ none ↦ true | some e ↦ false ]

-- The platform of a device, where empty means Android.
unfoldable pub platform_of : Platform → Platform
platform_of Platform.unset = Platform.android
platform_of p = p

unfoldable pub is_up : State → Bool
is_up State.running = true
is_up State.online = true
is_up _ = false

unfoldable pub same_platform : Platform → Platform → Bool
same_platform Platform.unset Platform.unset = true
same_platform Platform.android Platform.android = true
same_platform Platform.windows Platform.windows = true
same_platform Platform.macos Platform.macos = true
same_platform Platform.linux Platform.linux = true
same_platform _ _ = false

unfoldable pub suits : Platform → Instance → Bool
unfolding same_platform platform_of is_up
suits wanted i = same_platform (platform_of i.platform) wanted && is_up i.state

unfoldable pub pick_target : Platform → List Instance → Result String
unfolding suits
pick_target wanted [] = err (message "no running/online device matches the cycle platform")
pick_target wanted (i ∷ rest) = if suits wanted i then ok i.id else pick_target wanted rest

unfoldable pub resolve_target : Platform → Result (List Instance) → Result String
unfolding pick_target
resolve_target wanted (err e) = err e
resolve_target wanted (ok instances) = pick_target wanted instances

pub data Effect : Type 0 where
  -- SetCycleSchedule: the cycle, its last run and its next run
  schedule : String → ℕ → Option ℕ → Effect
  -- Executor.Start with the cron trigger: the cycle, the device and the build
  start : String → String → String → Effect

-- What the store answers in a tick. The errors of SetCycleSchedule and of Start are only logged.
pub record Tick : Type 0 where
  pub now : ℕ
  pub due : Result (List TestCycle)
  pub instances : TestCycle → Result (List Instance)

unfoldable pub next_run : Result ℕ → Option ℕ
next_run (ok t) = some t
next_run (err e) = none

unfoldable pub start_on : TestCycle → Result String → List Effect
start_on cycle (err e) = []
start_on cycle (ok target) = start cycle.id target cycle.build_id ∷ []

unfoldable pub fire : Calendar → Tick → TestCycle → List Effect
unfolding next_run next_in start_on resolve_target
fire c t cycle =
    let next = next_run (next_in c cycle.cron cycle.timezone t.now) in
    schedule cycle.id t.now next
    ∷ start_on cycle (resolve_target cycle.platform (t.instances cycle))

unfoldable pub fire_all : Calendar → Tick → List TestCycle → List Effect
unfolding fire
fire_all c t [] = []
fire_all c t (cycle ∷ rest) = fire c t cycle ++ fire_all c t rest

unfoldable pub tick : Calendar → Tick → List Effect
unfolding fire_all
tick c t = elim t.due [ err e ↦ [] | ok due ↦ fire_all c t due ]
