-- ===== src/Loop/Ready.antt =====
-- main.cpp: the states that a pass can start from, and its updates.
use cctop.Platform.Sources.{PowerSource, AllDescribed, update_battery_total}
use cctop.Console.Ending.{endwins}
use cctop.ProcessList.Seen.{update-IsValid, print_processes-IsValid}
use cctop.Prelude.{◌+◌, false, some, List, ◌≡◌, refl, arith, ◌▷◌, String, ◌∷◌, [], Option, true}
use cctop.Terminal.{Env}
use cctop.Console.{Console, call, text}
use cctop.Console.Session.{running, exited}
use cctop.Platform.{print_platform}
use cctop.Cpu.{Naming}
use cctop.Cpu.Updates
use cctop.Cpu.Updates.{update_lem}
use cctop.Memory.{print_memory, print_virtual_memory}
use cctop.Memory
use cctop.Platform
use cctop.ProcessList
use cctop.Disk.Readings.{update_disk}
use cctop.Network.{Message, messages}
use cctop.Network.Readings.{update_network}
use cctop.ProcessList.Users.{Accounts}
use cctop.Sampler.Interval
use cctop.Disk.Stats.{disk_stat}
use cctop.Network.Traffic.{interface_stat}
use cctop.Map.{string_key}
use cctop.ProcessList.Seen
use cctop.Console.Session.{leave, cleanup}
use cctop.Network
use cctop.Network.{Answer, failed}
use cctop.Console.Frame.{ending}
use cctop.Map.{nat_key}
use cctop.Terminal.{err, str}
use cctop.Loop.{World, Answers, update_world}

-- The samplers can be updated, and the processes are filed.
pub record IsReady ⦃names : Naming⦄ (w : World) : Type 0 where
  pub processor : Updates.IsValid w.processor
  pub disk : Interval.IsValid w.disk.sampler
  pub network : Interval.IsValid w.network
  pub processes : Seen.IsValid w.process_list.touched w.process_list.list

-- What the system tells in a pass, for the program to use no null pointer: libproc answers about a
-- process with its number, and the power source services answer a list of sources, twice, and a
-- type; each source has a description with a transport and both capacities.
pub record IsTold (a : Answers) : Type 0 where
  pub listed : Seen.Answers a.listed
  pub sources : List (Option PowerSource)
  pub source : String
  pub has_sources : a.power.sources ≡ some sources
  pub described : AllDescribed sources
  pub listed_again : a.power.listed_again ≡ true
  pub has_source : a.power.source ≡ some source

module _ ⦃env : Env⦄ where
  update_platform :
      (a : Answers) (q : Platform.Platform)
      → IsTold a
      → (q' : Platform.Platform) × (Platform.update a.power a.load0 a.load1 a.load2 a.num_processes
            q
          ≡ some q')
  unfolding Platform.update Platform.set_power Platform.power_state_of
  update_platform a q told =
      let (charge, charged) = update_battery_total told.sources told.described in
      (
        Platform.set_power a.power charge told.source a.load0 a.load1 a.load2 a.num_processes q,
        rw (told.has_sources, Platform.update, charged)
            (rw (told.has_source, told.listed_again) refl),
      )

-- What a pass keeps besides: the session of the console, and the time to wait for a key.
pub record Keeps (w w' : World) : Type 0 where
  pub quiet : ending w'.console ≡ ending w.console
  pub timeout : w'.options.read_timeout ≡ w.options.read_timeout

module _ ⦃env : Env⦄ ⦃names : Naming⦄ (accounts : Accounts) where
  pub update_world_lem :
      (a : Answers) (xs : List Message) (w : World)
      → a.interfaces ≡ messages xs
      → IsTold a
      → IsReady w
      → (w' : World) × (update_world accounts a w ≡ running (some w'))
        × IsReady w'
        × (w'.console ≡ w.console)
        × (w'.options ≡ w.options)
  unfolding update_world
  update_world_lem a xs w e told r =
      let (platform, platform_done) = update_platform a w.platform told in
      let (processor, cpu_done, cpu_valid, _, _, _) = update_lem a.ticks w.processor r.processor in
      let (disk, disk_done, _, disk_adv) = update_disk a.registry w.disk r.disk in
      let (network, net_done, net_adv) = update_network xs w.network w.console r.network in
      (
        record w {
          platform = platform;
          processor = processor;
          memory = Memory.update a.vmstat w.memory;
          disk = disk;
          network = network;
          process_list = ProcessList.update processor.total_ticks a.listed w.process_list;
        },
        rw (platform_done, cpu_done, disk_done, e, net_done, update_world) refl,
        record {
          processor = cpu_valid;
          disk = disk_adv.valid;
          network = net_adv.valid;
          processes =
              update-IsValid processor.total_ticks a.listed w.process_list told.listed r.processes;
        },
        refl,
        refl,
      )

  -- If the interfaces are not answered, the update leaves the program.
  pub update_world_failed :
      (a : Answers) (error : String) (w : World)
      → a.interfaces ≡ failed error
      → IsTold a
      → IsReady w
      → (c : Console) × (update_world accounts a w ≡ exited 1 c)
        × (w.console.aborting ≡ false → endwins c.calls ≡ endwins w.console.calls + 1)
  unfolding update_world Network.update Network.read leave cleanup call endwins
  update_world_failed a error w e told r =
      let (platform, platform_done) = update_platform a w.platform told in
      let (processor, cpu_done, _, _, _, _) = update_lem a.ticks w.processor r.processor in
      let (disk, disk_done, _, _) = update_disk a.registry w.disk r.disk in
      (
        cleanup (w.console ▷ call (err (text "sysctl: %s\n" (str error ∷ [])))),
        rw (platform_done, cpu_done, disk_done, e, update_world) refl,
        λ open_session. ground arith,
      )
