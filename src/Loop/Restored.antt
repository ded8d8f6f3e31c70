-- ===== src/Loop/Restored.antt =====
-- main.cpp: a pass leaves nothing switched on.
use cctop.Prelude.{ℕ, ◌+◌, Bool, not, Option, none, some, ◌∙◌, ◌||◌, ltb, Bool-cases, inl, inr}
use cctop.Terminal.{Env}
use cctop.Options.{Options}
use cctop.Console.{Console}
use cctop.Console.Pen.{IsPlain, Plain}
use cctop.Console.Session.{Outcome, running, exited}
use cctop.Platform.{Platform, print_platform}
use cctop.Platform.Sources.{get_uptime}
use cctop.Cpu.{Cpu, Naming}
use cctop.Cpu.Plain.{print_cpu-Plain}
use cctop.Memory.{print_memory, print_virtual_memory}
use cctop.Disk.{print_disk}
use cctop.Network.Plain.{print_network-Plain}
use cctop.ProcessList.{print_processes}
use cctop.ProcessList.Users.{Accounts}
use cctop.Loop.{
  World, Answers, layout, print_first, print_last, end_pass, print_world, update_world, loop,
  min_width, min_height,
}
use cctop.Loop.Plain.{
  pen-show, pen-resize_help, print_memory-IsPlain, print_virtual_memory-IsPlain, print_disk-IsPlain,
  print_processes-IsPlain,
}

-- Of a pass that goes on, with the console of the program.
abbrev pub Restores : Outcome (Option (World × ℕ)) → Type 0
Restores (exited s c) = Unit
Restores (running r) = Plain (World × ℕ) (λ p. p.0.console) r

module _ ⦃env : Env⦄ ⦃names : Naming⦄ (accounts : Accounts) where
  after_cpu-Plain :
      (blank : Bool) (o : Options) (w : World) (platform : Platform) (n1 : ℕ)
      (shown : Option (Cpu × (Console × ℕ)))
      → Plain (Cpu × (Console × ℕ)) (λ r. r.1.0) shown
      → Plain
          (World × ℕ)
          (λ p. p.0.console)
          (elim shown [
            | none ↦ none
            | some (processor, (c2, n2)) ↦
                let (c3, n3) = print_memory blank o w.memory c2 in
                let (c4, n4) = print_virtual_memory blank o w.memory c3 in
                let (c5, n5) = print_disk blank o w.disk c4 in
                some (
                  record w { console = c5; platform = platform; processor = processor },
                  n1 + n2 + n3 + n4 + n5,
                )
          ])
  after_cpu-Plain blank o w platform n1 none p = tt
  after_cpu-Plain blank o w platform n1 (some (processor, (c2, n2))) p =
      print_disk-IsPlain blank o w.disk _
        (print_virtual_memory-IsPlain blank o w.memory _ (print_memory-IsPlain blank o w.memory c2))

  print_first-Plain :
      (blank : Bool) (o : Options) (a : Answers) (w : World)
      → Plain (World × ℕ) (λ p. p.0.console) (print_first accounts blank o a w)
  unfolding print_first
  print_first-Plain blank o a w =
      let shown =
        print_platform blank a.title (get_uptime a.boot_time a.now) w.platform w.console in
      after_cpu-Plain blank o w shown.0 shown.1.1 _ (print_cpu-Plain blank o w.processor shown.1.0)

  after_network-Plain :
      (blank : Bool) (o : Options) (w : World) (lines : ℕ) (shown : Option (Console × ℕ))
      → Plain (Console × ℕ) (λ r. r.0) shown
      → Plain
          (World × ℕ)
          (λ p. p.0.console)
          (elim shown [
            | none ↦ none
            | some (c6, n6) ↦
                let (list, (caches, (c7, n7))) =
                  print_processes accounts blank o w.process_list w.caches c6 in
                some
                  (record w { console = c7; process_list = list; caches = caches }, lines + n6 + n7)
          ])
  after_network-Plain blank o w lines none p = tt
  after_network-Plain blank o w lines (some (c6, n6)) p =
      print_processes-IsPlain accounts blank o w.process_list w.caches c6 p

  print_last-Plain :
      (blank : Bool) (o : Options) (w : World) (lines : ℕ)
      → IsPlain w.console
      → Plain (World × ℕ) (λ p. p.0.console) (print_last accounts blank o (w, lines))
  unfolding print_last
  print_last-Plain blank o w lines h =
      after_network-Plain blank o w lines _ (print_network-Plain blank o w.network w.console h)

  ended-Plain :
      (r : Option (World × ℕ))
      → Plain (World × ℕ) (λ p. p.0.console) r
      → Plain
          (World × ℕ)
          (λ p. p.0.console)
          (elim r [ none ↦ none | some r ↦ some (end_pass accounts r) ])
  unfolding end_pass
  ended-Plain none p = tt
  ended-Plain (some (w, n)) p = pen-show w.options w.console ∙ p

  after_first-Plain :
      (blank : Bool) (o : Options) (r : Option (World × ℕ))
      → Plain (World × ℕ) (λ p. p.0.console) r
      → Plain
          (World × ℕ)
          (λ p. p.0.console)
          (elim r [
            | none ↦ none
            | some r ↦ elim (print_last accounts blank o r) [
              | none ↦ none
              | some r ↦ some (end_pass accounts r)
            ]
          ])
  after_first-Plain blank o none p = tt
  after_first-Plain blank o (some (w, n)) p =
      ended-Plain (print_last accounts blank o (w, n)) (print_last-Plain blank o w n p)

  print_world-Plain :
      (a : Answers) (w : World) → Plain (World × ℕ) (λ p. p.0.console) (print_world accounts a w)
  unfolding print_world
  print_world-Plain a w =
      let (condense, o) = layout w.console.height w.options in
      after_first-Plain (not condense) o _ (print_first-Plain (not condense) o a _)

  updated-Restores :
      (a : Answers) (r : Outcome (Option World))
      → Restores (elim r [
        | exited s c ↦ exited s c
        | running none ↦ running none
        | running (some w') ↦ running (print_world accounts a w')
      ])
  updated-Restores a (exited s c) = tt
  updated-Restores a (running none) = tt
  updated-Restores a (running (some w)) = print_world-Plain a w

  pub loop-Restores : (a : Answers) (w : World) → IsPlain w.console → Restores (loop accounts a w)
  unfolding loop
  loop-Restores a w h =
      elim (Bool-cases (ltb w.console.width min_width || ltb w.console.height min_height)) [
        | inl small ↦ rw (small, loop) (pen-resize_help w.console ∙ h)
        | inr large ↦ rw (large, loop) (updated-Restores a (update_world accounts a w))
      ]
