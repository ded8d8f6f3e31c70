-- ===== src/Tests/Passes.antt =====
-- The processes and a pass of the loop.
use cctop.Prelude.{
  Option, inl, ℕ, ◌+◌, ◌≡◌, refl, true, false, none, some, List, [], ◌∷◌, arith, if◌then◌else◌, ◌<◌,
  ◌*◌,
}
use cctop.Prelude.Int.{pos}
use cctop.Terminal.{lit, of_int, mul, div}
use cctop.Platform.Sources.{PowerSource, update_battery, update_battery_lem, get_uptime}
use cctop.Options.{defaults}
use cctop.Map.{nat_key}
use cctop.Console.{printed}
use cctop.Console.Session.{running}
use cctop.Platform.{Platform, warning_none, power_battery, print_platform, split_uptime}
use cctop.Platform.Rows.{print_platform_lem, shown_uptime}
use cctop.Network.{messages}
use cctop.Loop.{World, layout, loop}
use cctop.Loop
use cctop.Loop.Ready.{IsReady, IsTold, Keeps}
use cctop.Loop.Pass.{loop_lem}
use cctop.Loop.Sections.{uncounted}
use cctop.Tests.Samples.{sample_env, sample_console, sample_names, ticks_now}
use cctop.Tests.Counters.{sample_cpu, sample_cpu-IsValid, sample_memory, pages}
use cctop.Tests.Drives.{
  sample_disk, sample_disk-IsValid, sample_network, sample_network-IsValid, sample_messages,
  sample_registry,
}
use cctop.Tests.Processes.{
  sample_accounts, no_caches, no_processes, no_processes-IsValid, sample_listed,
}

shown_uptime_example :
    let (days, (hours, minutes)) = split_uptime (get_uptime (some 1000) 201000) in
    (seconds : ℕ) × (seconds < 60)
    × (201000 ≡ 1000 + days * 86400 + hours * 3600 + minutes * 60 + seconds)
    × (hours < 24)
    × (minutes < 60)
shown_uptime_example = shown_uptime 1000 201000 (omega arith) (omega arith)

-- A mouse, and the battery.
abbrev sample_mouse : PowerSource
sample_mouse = record { is_internal = false; capacities = some (pos 50, pos 100) }

abbrev sample_battery : PowerSource
sample_battery = record { is_internal = true; capacities = some (pos 4000, pos 5000) }

abbrev sample_sources : List (Option PowerSource)
sample_sources = some sample_mouse ∷ some sample_battery ∷ []

update_battery_lem_example :
    update_battery (some sample_sources)
    ≡ some (mul (div (of_int (pos 4000)) (of_int (pos 5000))) (lit 100 0))
update_battery_lem_example =
    update_battery_lem (some sample_mouse ∷ []) [] sample_battery (pos 4000) (pos 5000) (refl, tt)
      (inl refl) refl

abbrev sample_platform : Platform
sample_platform = record {
  hostname = "host";
  sysname = "Darwin";
  release = "21.0";
  version = "21";
  machine = "x86_64";
  battery_info = record {
    charge_pct = lit 80 0;
    power_source = "Battery Power";
    warning_level = some warning_none;
    power_state = power_battery;
    time_remaining = lit 3600 0;
  };
  uptime = 0;
  loadavg0 = lit 1 0;
  loadavg1 = lit 1 0;
  loadavg2 = lit 1 0;
  num_processes = 1;
  cpu_count = 2;
  refresh_time = 1;
}

print_platform_lem_example :
    let (q, (d, n)) = print_platform true " cctop/1" 200000 sample_platform sample_console in
    (printed d ≡ printed sample_console + n + 1) × (n ≡ 2 + (if true then 1 else 0))
print_platform_lem_example =
    print_platform_lem true " cctop/1" 200000 sample_platform sample_console

abbrev pub sample_answers : Loop.Answers
sample_answers = record {
  power = record {
    sources = some sample_sources;
    listed_again = true;
    source = some "Battery Power";
    warning = some warning_none;
    estimate = lit 3600 0;
    unlimited = lit 2 0;
    unknown = lit 1 0;
  };
  load0 = lit 1 0;
  load1 = lit 1 0;
  load2 = lit 1 0;
  num_processes = 2;
  ticks = ticks_now;
  vmstat = pages;
  registry = sample_registry;
  interfaces = messages sample_messages;
  listed = sample_listed;
  title = " cctop/1";
  boot_time = some 1000;
  now = 201000;
}

pub sample_answers-IsTold : IsTold sample_answers
sample_answers-IsTold = record {
  listed = (refl, (tt, tt));
  sources = sample_sources;
  source = "Battery Power";
  has_sources = refl;
  described = (((pos 50, pos 100), refl), (((pos 4000, pos 5000), refl), tt));
  listed_again = refl;
  has_source = refl;
}

abbrev pub sample_world : World
sample_world = record {
  console = sample_console;
  options = defaults;
  platform = sample_platform;
  processor = sample_cpu;
  memory = sample_memory;
  disk = sample_disk;
  network = sample_network;
  process_list = no_processes;
  caches = no_caches;
  required_lines = none;
}

abbrev pub small_world : World
small_world = record sample_world { console = record sample_console { height = 20 } }

pub sample_world-IsReady : IsReady sample_world
sample_world-IsReady = record {
  processor = sample_cpu-IsValid;
  disk = sample_disk-IsValid;
  network = sample_network-IsValid;
  processes = no_processes-IsValid;
}

loop_lem_example :
    (w : World) × (n : ℕ) × (loop sample_accounts sample_answers sample_world
      ≡ running (some (w, n)))
    × (printed w.console ≡ printed sample_console + n + uncounted defaults)
    × IsReady w
    × Keeps sample_world w
loop_lem_example =
    loop_lem sample_accounts sample_answers sample_messages sample_world sample_world-IsReady
      sample_answers-IsTold refl (omega arith) (omega arith)
