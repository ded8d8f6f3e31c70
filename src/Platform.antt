-- ===== src/Platform.antt =====
-- macos/Platform.h and macos/Platform.cpp: class Platform, the lines at the top. What the system says
-- is an argument. The process table that `update` fetches is not read by anything; its size is kept.
pub mod Sources
pub mod Rows
use cctop.Prelude.{
  ℕ, ◌+◌, ◌-◌, ◌*◌, ◌/◌, ◌<◌, String, Bool, true, false, Option, none, some, List, [], ◌∷◌, ◌▷◌,
  if◌then◌else◌, ltb, leb,
}
use cctop.Platform.Sources.{PowerSource, update_battery}
use cctop.Prelude.Int.{ℤ, pos, negsuc}
use cctop.Prelude.Words.{sub64, u64_mod}
use cctop.Terminal.{Env, Double, lit, div, of_int, Arg, str, num, real, Text}
use cctop.Options.{Options}
use cctop.Console.{Console, clear_eol, mode_clear, newline, print, println, text}
use cctop.Console.Modes.{mode_bold}
use cctop.Console.Output.{inverseln, end_section}
use cctop.Console.Gauge.{empty, gauge}

pub data WarningLevel : Type 0 where
  warning_none warning_early warning_final : WarningLevel

pub data PowerState : Type 0 where
  power_plugged_in power_unplugged power_battery : PowerState

pub record BatteryInfo : Type 0 where
  pub charge_pct : Double
  pub power_source : String
  -- `none` is the 0 that is there before the first update.
  pub warning_level : Option WarningLevel
  pub power_state : PowerState
  pub time_remaining : Double

pub record Platform : Type 0 where
  pub hostname : String
  pub sysname : String
  pub release : String
  pub version : String
  pub machine : String
  pub battery_info : BatteryInfo
  pub uptime : ℕ
  pub loadavg0 : Double
  pub loadavg1 : Double
  pub loadavg2 : Double
  pub num_processes : ℕ
  pub cpu_count : ℕ
  pub refresh_time : ℕ

-- What the power source services answer: the list of the sources, whether there is one the second time
-- that it is asked for, and the type of the source; `none` and false are null pointers. `warning` is `none` for a level that the `switch` does not
-- name; `unlimited` and `unknown` are IOKit's two constants for an estimate of the time.
pub record Power : Type 0 where
  pub sources : Option (List (Option PowerSource))
  pub listed_again : Bool
  pub source : Option String
  pub warning : Option WarningLevel
  pub estimate : Double
  pub unlimited : Double
  pub unknown : Double

-- What `uname` answers.
pub record Utsname : Type 0 where
  pub nodename : String
  pub sysname : String
  pub release : String
  pub version : String
  pub machine : String

-- The constructor, from the number of processors; `none` is a failed assertion. The fields that it
-- leaves alone are zero, as `platform` is a global object.
unfoldable pub start : Option ℕ → Utsname → Option Platform
start none buf = none
start (some cpus) buf = some (record {
  hostname = buf.nodename;
  sysname = buf.sysname;
  release = buf.release;
  version = buf.version;
  machine = buf.machine;
  battery_info = record {
    charge_pct = lit 0 0;
    power_source = "";
    warning_level = none;
    power_state = power_plugged_in;
    time_remaining = lit 0 0;
  };
  uptime = 0;
  loadavg0 = lit 0 0;
  loadavg1 = lit 0 0;
  loadavg2 = lit 0 0;
  num_processes = 0;
  cpu_count = cpus;
  refresh_time = 1;
})

-- The `switch` on the warning level.
unfoldable pub set_warning : Option WarningLevel → Option WarningLevel → Option WarningLevel
set_warning none old = old
set_warning (some level) old = some level

unfoldable pub minutes_remaining : BatteryInfo → Double
minutes_remaining b = div b.time_remaining (lit 60 0)

unfoldable pub hours_remaining : BatteryInfo → Double
hours_remaining b = div (minutes_remaining b) (lit 60 0)

-- Days, hours and minutes of the uptime.
unfoldable pub split_uptime : ℕ → ℕ × (ℕ × ℕ)
split_uptime uptime =
    let days = uptime / 86400 in
    let rest = sub64 uptime (days * 86400) in
    let hours = rest / 3600 in (days, (hours, sub64 rest (hours * 3600) / 60))

-- What `sprintf` writes to the buffer `out` of `console.width + 1` bytes.
unfoldable pub title_text : Options → Platform → Console → Text
title_text o q c = text " cctop/%llu [%s/%s %s] %d x %d" (
    num (o.read_timeout / 1000)
    ∷ str q.hostname
    ∷ str q.sysname
    ∷ str q.release
    ∷ num c.width
    ∷ num c.height
    ∷ [])

-- `fill`, from the width, `strlen(out)` and `strlen(s)`: the number of spaces that the loop puts
-- between the two texts.
unfoldable pub title_fill : (width out s : ℕ) → ℕ
title_fill width out s = sub64 (sub64 (sub64 width out) s) 2

module _ ⦃env : Env⦄ where
  -- The power state that `update` sets.
  unfoldable pub power_state_of : Power → PowerState
  power_state_of p =
      if env.eq p.estimate p.unlimited
      then power_plugged_in
      else if env.eq p.estimate p.unknown
      then power_unplugged
      else power_battery

  -- `update`, once the charge and the type of the source are there.
  unfoldable pub set_power :
      Power → Double → String → (load0 load1 load2 : Double) → ℕ → Platform → Platform
  set_power p charge source load0 load1 load2 processes q = record q {
    battery_info = record {
      charge_pct = charge;
      power_source = source;
      warning_level = set_warning p.warning q.battery_info.warning_level;
      power_state = power_state_of p;
      time_remaining = p.estimate;
    };
    loadavg0 = load0;
    loadavg1 = load1;
    loadavg2 = load2;
    num_processes = processes;
  }

  -- The result is `none` where a null pointer is used: `CFRelease` of a list that there is not, or the
  -- text of a type that there is not.
  unfoldable pub update : Power → (load0 load1 load2 : Double) → ℕ → Platform → Option Platform
  update p load0 load1 load2 processes q = elim (update_battery p.sources) [
    | none ↦ none
    | some charge ↦ elim p.source [
      | none ↦ none
      | some source ↦
          if p.listed_again
          then some (set_power p charge source load0 load1 load2 processes q)
          else none
    ]
  ]

  -- The line of the uptime and the load.
  unfoldable pub print_uptime : Platform → Console → Console
  print_uptime q c =
      let (days, (hours, minutes)) = split_uptime q.uptime in
      c
      ▷ mode_bold true
      ▷ print "Uptime: " []
      ▷ mode_clear
      ▷ print "%d days %d:%02d  " (num days ∷ num hours ∷ num minutes ∷ [])
      ▷ mode_bold true
      ▷ print "Load Average: " []
      ▷ mode_clear
      ▷ print "%5.2f %5.2f %5.2f" (real q.loadavg0 ∷ real q.loadavg1 ∷ real q.loadavg2 ∷ [])
      ▷ clear_eol
      ▷ newline true

  unfoldable pub print_time : BatteryInfo → Console → Console
  print_time b c =
      if env.lt (lit 0 0) b.time_remaining
      then print " %.1f hours remaining" (real (hours_remaining b) ∷ []) c
      else if env.eq b.time_remaining (of_int (negsuc 0))
      then print " Caluclating time remaining" [] c
      else c

  -- The line of the battery, for which `print` does not count.
  unfoldable pub print_battery : BatteryInfo → Console → Console
  print_battery b c =
      c
      ▷ mode_bold true
      ▷ print "Power Source: " []
      ▷ mode_clear
      ▷ print "%s " (str b.power_source ∷ [])
      ▷ mode_bold true
      ▷ print "Battery: " []
      ▷ mode_clear
      ▷ print "%.0f%% " (real b.charge_pct ∷ [])
      ▷ gauge 20 b.charge_pct empty
      ▷ print_time b
      ▷ clear_eol
      ▷ newline true

  -- `Platform::print`, with the line at the top as it stands in `out` (`title_text`, the spaces and the time) and the uptime of the system, and with the number that it returns.
  unfoldable pub print_platform : Bool → String → ℕ → Platform → Console → Platform × (Console × ℕ)
  print_platform blank out uptime q c =
      let q = record q { uptime = uptime } in
      (
        q,
        end_section blank (c ▷ inverseln out [] ▷ print_uptime q ▷ print_battery q.battery_info, 2),
      )
