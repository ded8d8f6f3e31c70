-- ===== src/Loop.antt =====
-- main.cpp: a pass of the loop of the program. The objects of the program are the fields of World.
pub mod Layout
pub mod Quiet
pub mod Plain
pub mod Restored
pub mod Ready
pub mod Sections
pub mod Pass
use cctop.Prelude.{
  ℕ, suc, ◌+◌, String, Bool, true, false, not, ◌||◌, Option, none, some, List, [], ◌∷◌, ◌▷◌, ltb,
  if◌then◌else◌,
}
use cctop.Terminal.{Env, Double, num}
use cctop.Options.{Options}
use cctop.Console.{Console, clear, move_to, mode_clear, println}
use cctop.Console.Session.{Outcome, running, exited}
use cctop.Help.{show}
use cctop.Platform.{Platform, Power, print_platform}
use cctop.Platform
use cctop.Platform.Sources.{get_uptime}
use cctop.Cpu.{Cpu, Naming, Ticks}
use cctop.Cpu
use cctop.Cpu.Print.{print_cpu}
use cctop.Memory.{Memory, VmStat, print_memory, print_virtual_memory}
use cctop.Memory
use cctop.Disk.{Disk, Registry, print_disk}
use cctop.Disk
use cctop.Network.{Network, Answer, print_network}
use cctop.Network
use cctop.ProcessList.{ProcessList, Listed, print_processes}
use cctop.ProcessList
use cctop.ProcessList.Users.{Accounts, Caches}

abbrev pub min_width : ℕ
min_width = 96

abbrev pub min_height : ℕ
min_height = 30

-- The global objects. `required_lines` is `none` for -1.
pub record World : Type 0 where
  pub console : Console
  pub options : Options
  pub platform : Platform.Platform
  pub processor : Cpu.Cpu
  pub memory : Memory.Memory
  pub disk : Disk.Disk
  pub network : Network.Network
  pub process_list : ProcessList.ProcessList
  pub caches : Caches
  pub required_lines : Option ℕ

-- What the system answers in a pass.
pub record Answers : Type 0 where
  pub power : Power
  pub load0 : Double
  pub load1 : Double
  pub load2 : Double
  pub num_processes : ℕ
  pub ticks : List Ticks
  pub vmstat : VmStat
  pub registry : Registry
  pub interfaces : Answer
  pub listed : List Listed
  -- the line at the top, the time of the boot, and the time
  pub title : String
  pub boot_time : Option ℕ
  pub now : ℕ

unfoldable pub resize_help : Console → Console
resize_help c =
    c
    ▷ clear
    ▷ println "Window is %dx%d and needs to be at least %dx%d]"
        (num c.width ∷ num c.height ∷ num min_width ∷ num min_height ∷ [])

-- `condense`, and the options that follow from the height of the window.
unfoldable pub layout : ℕ → Options → Bool × Options
layout height o =
    let o = record o { condense_cpu = o.condense_cpu_state } in
    if ltb height 40
    then ((if ltb height 35 then true else o.condense_main), record o { condense_cpu = true })
    else ((if ltb height 45 then true else o.condense_main), o)

module _ ⦃env : Env⦄ ⦃names : Naming⦄ (accounts : Accounts) where
  -- The calls of `update`. `none` under `running` is the use of a null pointer.
  unfoldable pub update_world : Answers → World → Outcome (Option World)
  update_world a w =
      elim (Platform.update a.power a.load0 a.load1 a.load2 a.num_processes w.platform) [
        | none ↦ running none
        | some platform ↦ elim (Cpu.update a.ticks w.processor) [
          | none ↦ running none
          | some processor ↦
              let memory = Memory.update a.vmstat w.memory in
              elim (Disk.update a.registry w.disk) [
                | none ↦ running none
                | some d ↦ elim (Network.update a.interfaces w.network w.console) [
                  | exited s c ↦ exited s c
                  | running n ↦ elim n [
                    | none ↦ running none
                    | some network ↦ running (
                        some (record w {
                          platform = platform;
                          processor = processor;
                          memory = memory;
                          disk = d.0;
                          network = network;
                          process_list =
                              ProcessList.update processor.total_ticks a.listed w.process_list;
                        }))
                  ]
                ]
              ]
        ]
      ]

  -- The calls of `print`, from `platform` to `disk`, with the sum of the counts.
  unfoldable pub print_first : Bool → Options → Answers → World → Option (World × ℕ)
  print_first blank o a w =
      let (platform, (c1, n1)) =
        print_platform blank a.title (get_uptime a.boot_time a.now) w.platform w.console in
      elim (print_cpu blank o w.processor c1) [
        | none ↦ none
        | some (processor, (c2, n2)) ↦
            let (c3, n3) = print_memory blank o w.memory c2 in
            let (c4, n4) = print_virtual_memory blank o w.memory c3 in
            let (c5, n5) = print_disk blank o w.disk c4 in
            some (
              record w { console = c5; platform = platform; processor = processor },
              n1 + n2 + n3 + n4 + n5,
            )
      ]

  -- Those of `network` and `processList`.
  unfoldable pub print_last : Bool → Options → World × ℕ → Option (World × ℕ)
  print_last blank o (w, lines) = elim (print_network blank o w.network w.console) [
    | none ↦ none
    | some (c6, n6) ↦
        let (list, (caches, (c7, n7))) =
          print_processes accounts blank o w.process_list w.caches c6 in
        some (record w { console = c7; process_list = list; caches = caches }, lines + n6 + n7)
  ]

  -- The end of the pass.
  unfoldable pub end_pass : World × ℕ → World × ℕ
  end_pass (w, lines) = (
    record w {
      required_lines = (elim w.required_lines [ none ↦ some lines | some n ↦ some n ]);
      console = show w.options w.console;
    },
    lines + 1,
  )

  unfoldable pub print_world : Answers → World → Option (World × ℕ)
  print_world a w =
      let (condense, o) = layout w.console.height w.options in
      let started = record w { options = o; console = w.console ▷ move_to 0 0 ▷ mode_clear } in
      elim (print_first (not condense) o a started) [
        | none ↦ none
        | some r ↦ elim (print_last (not condense) o r) [ none ↦ none | some r ↦ some (end_pass r) ]
      ]

  -- `loop()`, with the number that it returns
  unfoldable pub loop : Answers → World → Outcome (Option (World × ℕ))
  loop a w =
      if ltb w.console.width min_width || ltb w.console.height min_height
      then running (some (record w { console = resize_help w.console }, 0))
      else (elim (update_world a w) [
        | exited s c ↦ exited s c
        | running none ↦ running none
        | running (some w') ↦ running (print_world a w')
      ])
