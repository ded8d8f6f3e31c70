-- ===== src/Main/Written.antt =====
-- The program, and the attributes that it writes with.
use cctop.Debug.{open_log}
use cctop.Prelude.{Bool-cases, inl, inr, ℕ, refl, Option, none, some, List, [], ◌∷◌}
use cctop.Terminal.{Env}
use cctop.Console.{Console, call, reset, clear, move_to}
use cctop.Console.Pen.{pen, pen_of, IsPlain}
use cctop.Console.Session.{Outcome, running, exited}
use cctop.Console.Session
use cctop.Platform.{Platform}
use cctop.Cpu.{Cpu, Naming}
use cctop.Disk.{Disk}
use cctop.Network.{Network}
use cctop.Loop.{World, Answers}
use cctop.Main.{Turn, going, left, crashed, unfinished, after_loop, enter}
use cctop.Main.Boot.{Boot, world_of, boot_network, boot_disk, boot_cpu, boot_with, boot}
use cctop.Main.Restored.{Clean, turn-Clean, enter-Clean}
use cctop.Main.Program.{Event, round, interrupt, terminate, continue, stop, step, steps, program}
use cctop.ProcessList.Users.{Accounts}

abbrev BootClean : Outcome (Option World) → Type 0
BootClean (running none) = Unit
BootClean (running (some w)) = IsPlain w.console
BootClean (exited s c) = Unit

pen-start : ⦃env : Env⦄ → IsPlain Session.start
unfolding Session.start pen pen_of reset clear move_to call
pen-start = refl

module _ ⦃names : Naming⦄ (b : Boot) (c : Console) (h : IsPlain c) (platform : Platform) where
  network-BootClean :
      (cpu : Cpu) (disk : Disk) (r : Outcome (Option Network))
      → BootClean (elim r [
        | exited s d ↦ exited s d
        | running none ↦ running none
        | running (some network) ↦ running (some (world_of b c platform cpu disk network))
      ])
  unfolding world_of
  network-BootClean cpu disk (exited s d) = tt
  network-BootClean cpu disk (running none) = tt
  network-BootClean cpu disk (running (some network)) = h

  disk-BootClean :
      (cpu : Cpu) (r : Outcome Disk)
      → BootClean
          (elim r [ exited s d ↦ exited s d | running disk ↦ boot_network b c platform cpu disk ])
  unfolding boot_network
  disk-BootClean cpu (exited s d) = tt
  disk-BootClean cpu (running disk) = network-BootClean cpu disk _

  cpu-BootClean :
      (r : Option Cpu)
      → BootClean (elim r [ none ↦ running none | some cpu ↦ boot_disk b c platform cpu ])
  unfolding boot_disk
  cpu-BootClean none = tt
  cpu-BootClean (some cpu) = disk-BootClean cpu _

module _ ⦃names : Naming⦄ (b : Boot) (c : Console) (h : IsPlain c) where
  platform-BootClean :
      (r : Option Platform)
      → BootClean (elim r [ none ↦ running none | some platform ↦ boot_cpu b c platform ])
  unfolding boot_cpu
  platform-BootClean none = tt
  platform-BootClean (some platform) = cpu-BootClean b c h platform _

module _ ⦃env : Env⦄ ⦃names : Naming⦄ where
  boot-BootClean : (b : Boot) → BootClean (boot b)
  unfolding boot boot_with open_log
  boot-BootClean b = elim (Bool-cases b.log_opened) [
    | inl opened ↦ rw (opened, boot, open_log) (platform-BootClean b Session.start pen-start _)
    | inr failed ↦ rw (failed, boot, open_log) tt
  ]

module _ ⦃env : Env⦄ ⦃names : Naming⦄ (accounts : Accounts) where
  step-Clean : (e : Event) (w : World) → IsPlain w.console → Clean (step accounts e w)
  unfolding step stop Session.exit_handler Session.leave
  step-Clean (round a) w h = turn-Clean accounts a w h
  step-Clean interrupt w h = tt
  step-Clean terminate w h = tt

  continue-Clean :
      (rest : World → Turn) (t : Turn)
      → Clean t
      → ((w : World) → IsPlain w.console → Clean (rest w))
      → Clean (continue rest t)
  unfolding continue
  continue-Clean rest (going w) p h = h w p
  continue-Clean rest (left status c) p h = tt
  continue-Clean rest crashed p h = tt
  continue-Clean rest unfinished p h = tt

  steps-Clean : (es : List Event) (w : World) → IsPlain w.console → Clean (steps accounts es w)
  unfolding steps
  steps-Clean [] w h = h
  steps-Clean (e ∷ es) w h =
      continue-Clean (steps accounts es) (step accounts e w) (step-Clean e w h)
        (λ w' h'. steps-Clean es w' h')

  booted-Clean :
      (rest : World → Turn) (r : Outcome (Option World))
      → BootClean r
      → ((w : World) → IsPlain w.console → Clean (rest w))
      → Clean (after_loop rest r)
  unfolding after_loop
  booted-Clean rest (running none) p h = tt
  booted-Clean rest (running (some w)) p h = h w p
  booted-Clean rest (exited s c) p h = tt

  -- After any number of rounds, with ^C or a request to terminate at any point between them, whatever
  -- the answers, the keys and the sizes of the window are: if the program goes on, then the library
  -- calls up to there leave no attribute switched on, and the colours are the terminal's own.
  pub program-Clean :
      (uid : ℕ) (b : Boot) (a : Answers) (es : List Event) → Clean (program accounts uid b a es)
  unfolding program
  program-Clean uid b a es = booted-Clean _ (boot b) (boot-BootClean b) (λ w h.
      continue-Clean (steps accounts es) (enter accounts uid a w) (enter-Clean accounts uid a w h)
        (λ w' h'. steps-Clean es w' h'))
