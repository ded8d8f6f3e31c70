-- ===== src/Main/Boot.antt =====
-- The global objects of the program, made by their constructors before `main` runs: Console.cpp,
-- Platform.cpp, CPU.cpp, Memory.cpp, Disk.cpp, Network.cpp, ProcessList.cpp and main.cpp. The language
-- leaves the order of the files open; the console is taken to be the first, as others write to it.
use cctop.Debug.{open_log, logged, null_stream, overrun}
use cctop.Prelude.{Bool, ℕ, Option, none, some, List, []}
use cctop.Terminal.{Env}
use cctop.Options.{defaults}
use cctop.Console.{Console}
use cctop.Console.Session.{Outcome, running, exited}
use cctop.Console.Session
use cctop.Platform.{Platform, Utsname}
use cctop.Platform
use cctop.Cpu.{Cpu, Naming, Ticks}
use cctop.Cpu
use cctop.Memory.{VmStat}
use cctop.Memory
use cctop.Disk.{Disk, Media, Registry}
use cctop.Disk
use cctop.Network.{Network, Answer}
use cctop.Network
use cctop.Loop.{World}

-- What the system answers to the constructors.
pub record Boot : Type 0 where
  -- whether `fopen` can open the log
  pub log_opened : Bool
  pub cpu_count : Option ℕ
  pub names : Utsname
  pub first_ticks : List Ticks
  pub second_ticks : List Ticks
  pub page_size : ℕ
  pub first_pages : VmStat
  pub second_pages : VmStat
  pub found : Option (List Media)
  pub removed : Option (List Media)
  pub registry : Registry
  pub first_interfaces : Answer
  pub second_interfaces : Answer

-- The objects, once the constructors that can fail have run.
unfoldable pub world_of : Boot → Console → Platform → Cpu → Disk → Network → World
world_of b c platform cpu disk network = record {
  console = c;
  options = defaults;
  platform = platform;
  processor = cpu;
  memory = Memory.start b.page_size b.first_pages b.second_pages;
  disk = disk;
  network = network;
  process_list = record { touched = 0; list = [] };
  caches = record { uids = []; gids = [] };
  required_lines = none;
}

unfoldable pub boot_network : Boot → Console → Platform → Cpu → Disk → Outcome (Option World)
boot_network b c platform cpu disk = elim (Network.start b.first_interfaces b.second_interfaces c) [
  | exited s d ↦ exited s d
  | running none ↦ running none
  | running (some network) ↦ running (some (world_of b c platform cpu disk network))
]

unfoldable pub boot_disk : Boot → Console → Platform → Cpu → Outcome (Option World)
boot_disk b c platform cpu = elim (Disk.start b.found b.removed b.registry c) [
  | exited s d ↦ exited s d
  | running disk ↦ boot_network b c platform cpu disk
]

module _ ⦃names : Naming⦄ where
  unfoldable pub boot_cpu : Boot → Console → Platform → Outcome (Option World)
  boot_cpu b c platform = elim (Cpu.start b.first_ticks b.second_ticks) [
    | none ↦ running none
    | some cpu ↦ boot_disk b c platform cpu
  ]

  unfoldable pub boot_with : Boot → Console → Outcome (Option World)
  boot_with b c = elim (Platform.start b.cpu_count b.names) [
    | none ↦ running none
    | some platform ↦ boot_cpu b c platform
  ]

  -- All of them, with that of the log. `running none` is a null pointer or a failed assertion. (The order
  -- of the objects of different files is not specified; the other constructors do not use the log.)
  unfoldable pub boot : ⦃env : Env⦄ → Boot → Outcome (Option World)
  boot b = elim (open_log b.log_opened) [
    | logged log ↦ boot_with b Session.start
    | null_stream ↦ running none
    | overrun ↦ running none
  ]
