-- ===== src/Loop/Sections.antt =====
-- main.cpp: the sections of a pass, one after the other.
use cctop.Cpu.Kept.{Changed-IsValid}
use cctop.Loop.Quiet.{
  ending-show, ending-print_disk, ending-print_processes, ending-print_virtual_memory,
  ending-print_memory, ending-print_platform,
}
use cctop.ProcessList.Seen.{print_processes-IsValid}
use cctop.Prelude.{ℕ, ◌+◌, Bool, not, some, ◌≡◌, refl, arith, if◌then◌else◌, ◌▷◌, ◌∙◌}
use cctop.Terminal.{Env}
use cctop.Options.{Options}
use cctop.Console.{printed, move_to, mode_clear}
use cctop.Console.Lines.{printed-move_to, printed-mode_clear}
use cctop.Help.Layout.{printed-show}
use cctop.Platform.Rows.{print_platform_lem}
use cctop.Platform.{print_platform}
use cctop.Cpu.{Naming}
use cctop.Cpu.Rows.{print_cpu_all}
use cctop.Memory.{print_memory, print_virtual_memory}
use cctop.Platform.Sources.{get_uptime}
use cctop.Memory.Rows.{print_memory_lem, print_virtual_memory_lem}
use cctop.Disk.{print_disk}
use cctop.Disk.Rows.{print_disk_lem}
use cctop.Network.Rows.{print_network_all}
use cctop.ProcessList.Rows.{print_processes_lem}
use cctop.ProcessList.Users.{Accounts}
use cctop.Disk.Stats.{disk_stat}
use cctop.Network.Traffic.{interface_stat}
use cctop.Map.{string_key}
use cctop.Console.Frame.{ending-mode_clear, ending-move_to}
use cctop.Map.{nat_key}
use cctop.Loop.{
  World, Answers, layout, print_first, print_last, end_pass, print_world, print_processes,
}
use cctop.Loop.Ready.{IsReady, Keeps}

-- The line for swap, which is not counted.
abbrev pub uncounted : Options → ℕ
uncounted o = if o.condense_memory then 0 else 1

layout-memory : (height : ℕ) (o : Options) → uncounted (layout height o).1 ≡ uncounted o
unfolding layout
layout-memory height o = ground arith

layout-timeout : (height : ℕ) (o : Options) → (layout height o).1.read_timeout ≡ o.read_timeout
unfolding layout
layout-timeout height o = ground arith

module _ ⦃env : Env⦄ ⦃names : Naming⦄ (accounts : Accounts) where
  print_first_lem :
      (blank : Bool) (o : Options) (a : Answers) (w : World)
      → IsReady w
      → (w' : World) × (n : ℕ) × (print_first accounts blank o a w ≡ some (w', n))
        × (printed w'.console ≡ printed w.console + n + 1 + uncounted o)
        × IsReady w'
        × Keeps w w'
  unfolding print_first
  print_first_lem blank o a w r =
      let p = print_platform blank a.title (get_uptime a.boot_time a.now) w.platform w.console in
      let (lines1, _) =
        print_platform_lem blank a.title (get_uptime a.boot_time a.now) w.platform w.console in
      let (delta, c2, n2, done, lines2, _, quiet2, changed) =
        print_cpu_all blank o w.processor p.1.0 r.processor.complete in
      let m = print_memory blank o w.memory c2 in
      let (lines3, _) = print_memory_lem blank o w.memory c2 in
      let v = print_virtual_memory blank o w.memory m.0 in
      let (lines4, _) = print_virtual_memory_lem blank o w.memory m.0 in
      let d = print_disk blank o w.disk v.0 in
      let (lines5, _) = print_disk_lem blank o w.disk v.0 in
      (
        record w {
          console = d.0;
          platform = p.0;
          processor = record w.processor { sampler = record w.processor.sampler { delta = delta } };
        },
        p.1.1 + n2 + m.1 + v.1 + d.1,
        rw (done, print_first) refl,
        omega (arith, lines1, lines2, lines3, lines4, lines5),
        record {
          processor = Changed-IsValid w.processor delta r.processor changed;
          disk = r.disk;
          network = r.network;
          processes = r.processes;
        },
        record {
          quiet =
              ending-print_disk blank o w.disk v.0
              ∙ ending-print_virtual_memory blank o w.memory m.0
              ∙ ending-print_memory blank o w.memory c2
              ∙ quiet2
              ∙ ending-print_platform blank a.title (get_uptime a.boot_time a.now) w.platform
                  w.console;
          timeout = refl;
        },
      )

  print_last_lem :
      (blank : Bool) (o : Options) (w : World) (n : ℕ)
      → IsReady w
      → (w' : World) × (n' : ℕ) × (print_last accounts blank o (w, n) ≡ some (w', n'))
        × (printed w'.console + n ≡ printed w.console + n')
        × IsReady w'
        × Keeps w w'
  unfolding print_last
  print_last_lem blank o w n r =
      let (c6, n6, done, lines6, quiet6) =
        print_network_all blank o w.network w.console r.network in
      let (lines7, _) = print_processes_lem accounts blank o w.process_list w.caches c6 in
      let (list, (caches, (c7, n7))) =
        print_processes accounts blank o w.process_list w.caches c6 in
      (
        record w { console = c7; process_list = list; caches = caches },
        n + n6 + n7,
        rw (done, print_last) refl,
        omega (arith, lines6, lines7),
        record {
          processor = r.processor;
          disk = r.disk;
          network = r.network;
          processes =
              print_processes-IsValid accounts blank o w.process_list w.caches c6 r.processes;
        },
        record {
          quiet = ending-print_processes accounts blank o w.process_list w.caches c6 ∙ quiet6;
          timeout = refl;
        },
      )

  pub print_world_lem :
      (a : Answers) (w : World)
      → IsReady w
      → (w' : World) × (n : ℕ) × (print_world accounts a w ≡ some (w', n))
        × (printed w'.console ≡ printed w.console + n + uncounted w.options)
        × IsReady w'
        × Keeps w w'
  unfolding print_world end_pass
  print_world_lem a w r =
      let (condense, o) = layout w.console.height w.options in
      let started = record w { options = o; console = w.console ▷ move_to 0 0 ▷ mode_clear } in
      let ready : IsReady started = record {
        processor = r.processor;
        disk = r.disk;
        network = r.network;
        processes = r.processes;
      } in
      let (w1, n1, done1, lines1, ready1, keeps1) =
        print_first_lem (not condense) o a started ready in
      let (w2, n2, done2, lines2, ready2, keeps2) = print_last_lem (not condense) o w1 n1 ready1 in
      (
        (end_pass accounts (w2, n2)).0,
        (end_pass accounts (w2, n2)).1,
        rw (done1, print_world) (rw done2 refl),
        omega (
          arith,
          lines1,
          lines2,
          layout-memory w.console.height w.options,
          printed-show w2.options w2.console,
          printed-move_to w.console 0 0,
          printed-mode_clear (move_to 0 0 w.console),
        ),
        record {
          processor = ready2.processor;
          disk = ready2.disk;
          network = ready2.network;
          processes = ready2.processes;
        },
        record {
          quiet =
              ending-show w2.options w2.console
              ∙ keeps2.quiet
              ∙ keeps1.quiet
              ∙ ending-mode_clear (move_to 0 0 w.console)
              ∙ ending-move_to w.console 0 0;
          timeout = keeps2.timeout ∙ keeps1.timeout ∙ layout-timeout w.console.height w.options;
        },
      )
