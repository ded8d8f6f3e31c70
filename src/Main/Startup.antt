-- ===== src/Main/Startup.antt =====
-- main.cpp and the constructors of the global objects: where the program starts.
use cctop.Debug.{open_log}
use cctop.Console.Modes.{default_colors}
use cctop.Map.{lookup}
use cctop.Prelude.{
  Bool, true, ℕ, ◌+◌, ◌≡◌, ◌<◌, refl, ap, ◌∙◌, false, Option, none, some, [], length, arith, ◌▷◌,
}
use cctop.Prelude.Words.{u16_mod}
use cctop.Terminal.{Env, tcgetattr, signal, initscr, sigint, start_color, sigterm}
use cctop.Console.{Console, call, resize, reset, clear, move_to}
use cctop.Console.Frame.{ending, ending-set_colors}
use cctop.Console.Ending.{endwins}
use cctop.Console.Session.{Outcome, running, exited, leave, cleanup, zeroed}
use cctop.Console.Session
use cctop.Platform.{Platform}
use cctop.Platform
use cctop.Cpu.{Cpu, Naming}
use cctop.Cpu.Updates
use cctop.Cpu.Updates.{start-IsValid}
use cctop.Disk.{Disk}
use cctop.Disk.Startup.{Started, start-Started, fails}
use cctop.Disk.Stats.{disk_stat}
use cctop.Network.{Network, Answer, failed, messages}
use cctop.Network
use cctop.Network.Readings.{start_network}
use cctop.Network.Traffic.{interface_stat}
use cctop.Sampler.Interval
use cctop.ProcessList.Seen
use cctop.Loop.{World}
use cctop.Main.Boot.{Boot, world_of, boot_network, boot_disk, boot_cpu, boot_with, boot}
use cctop.Main.Safety.{IsOpen}

-- The program starts in a state that can be updated with curses mode on, or has left with status 1 and
-- curses mode ended once. No null pointer is used, and no assertion fails.
abbrev pub Booted : ⦃names : Naming⦄ → Outcome (Option World) → Type 0
Booted (running none) = ⊥
Booted (running (some w)) = IsOpen w
Booted (exited s c) = (s ≡ 1) × (endwins c.calls ≡ 1)

abbrev NetworkStarted : Console → Outcome (Option Network) → Type 0
NetworkStarted con (running none) = ⊥
NetworkStarted con (running (some network)) = Interval.IsValid network
NetworkStarted con (exited s c) = (s ≡ 1) × (endwins c.calls ≡ endwins con.calls + 1)

start-NetworkStarted :
    (first second : Answer) (con : Console)
    → con.aborting ≡ false
    → NetworkStarted con (Network.start first second con)
unfolding Network.start Network.update Network.read leave cleanup call endwins
start-NetworkStarted (failed error) second con h = ground arith
start-NetworkStarted (messages xs) (failed error) con h = ground arith
start-NetworkStarted (messages xs) (messages ys) con h =
    let (net, done, valid) = start_network xs ys con in rw done valid

no_processes : Seen.IsValid 0 []
unfolding lookup
no_processes = record {
  distinct = tt;
  filed = λ k p h. ground (arith, h);
  touched_le = λ k p h. ground (arith, h);
}

ending-constructed :
    ⦃env : Env⦄ (c : Console)
    → ending (c ▷ resize ▷ reset ▷ clear ▷ call (signal sigint) ▷ call (signal sigterm)) ≡ ending c
unfolding ending endwins resize reset clear move_to call
ending-constructed c = refl

ending-colored :
    ⦃env : Env⦄
    → ending (Session.start) ≡ (
      false,
      (ending (default_colors (zeroed ▷ call tcgetattr ▷ call initscr ▷ call start_color))).1,
    )
unfolding Session.start ending
ending-colored = ending-constructed _

ending-start : ⦃env : Env⦄ → ending Session.start ≡ (false, 0)
unfolding default_colors ending endwins call
ending-start = ending-colored ∙ ap (λ p. (false, p.1)) (ending-set_colors _ _ _)

module _ ⦃names : Naming⦄ (b : Boot) (c : Console) (session : ending c ≡ (false, 0))
    (platform : Platform) where
  network-Booted :
      (cpu : Cpu) (disk : Disk) (r : Outcome (Option Network))
      → Updates.IsValid cpu
      → Interval.IsValid disk.sampler
      → NetworkStarted c r
      → Booted (elim r [
        | exited s d ↦ exited s d
        | running none ↦ running none
        | running (some network) ↦ running (some (world_of b c platform cpu disk network))
      ])
  unfolding world_of ending
  network-Booted cpu disk (running none) p d h = h
  network-Booted cpu disk (running (some network)) p d h = record {
    ready = record { processor = p; disk = d; network = h; processes = no_processes };
    open_session = session;
  }
  network-Booted cpu disk (exited s e) p d h = (h.0, omega (arith, h.1, ap (λ q. q.1) session))

  disk-Booted :
      (cpu : Cpu) (breaks : Bool) (r : Outcome Disk)
      → Updates.IsValid cpu
      → Started breaks c r
      → Booted
          (elim r [ exited s d ↦ exited s d | running disk ↦ boot_network b c platform cpu disk ])
  unfolding boot_network ending
  disk-Booted cpu breaks (running disk) p (_, h) =
      network-Booted cpu disk _ p h
        (start-NetworkStarted b.first_interfaces b.second_interfaces c (ap (λ q. q.0) session))
  disk-Booted cpu breaks (exited s e) p (_, h, k) = (h, omega (arith, k, ap (λ q. q.1) session))

  boot_cpu-Booted :
      0 < length b.first_ticks → length b.first_ticks < u16_mod → Booted (boot_cpu b c platform)
  unfolding boot_cpu boot_disk ending
  boot_cpu-Booted pos small =
      let (cpu, done, valid, _) = start-IsValid b.first_ticks b.second_ticks pos small in
      rw (done, boot_cpu)
        (disk-Booted cpu (fails b.found b.removed) _ valid
          (start-Started b.found b.removed b.registry c (ap (λ q. q.0) session)))

-- If the log can be opened, and with from 1 to 65535 cores and their number known to the system, the
-- constructors of all objects leave a state that can be updated with curses mode on, or the program
-- with status 1 and curses mode ended once. They use no null pointer, and no assertion fails.
pub boot-Booted :
    ⦃env : Env⦄ ⦃names : Naming⦄ (b : Boot) (cpus : ℕ)
    → b.log_opened ≡ true
    → b.cpu_count ≡ some cpus
    → 0 < length b.first_ticks
    → length b.first_ticks < u16_mod
    → Booted (boot b)
unfolding boot boot_with Platform.start open_log
boot-Booted b cpus log e pos small =
    rw (log, boot, open_log)
      (rw (e, boot_with) (boot_cpu-Booted b Session.start ending-start _ pos small))
