-- ===== src/Cpu/Print.antt =====
-- macos/CPU.cpp: the display of the cores.
use cctop.Prelude.{
  ℕ, zero, suc, ◌+◌, Bool, true, ◌&&◌, String, Option, none, some, List, [], ◌∷◌, ◌▷◌, repeat,
  if◌then◌else◌, leb,
}
use cctop.Prelude.Int.{ℤ, pos, negsuc, pos_part}
use cctop.Terminal.{Double, Env, lit, of_u64, of_int, add, sub, mul, div, str, real, chr}
use cctop.Map.{Map, string_key, lookup, insert}
use cctop.Options.{Options}
use cctop.Console.{Console, mode_clear, newline, print, wprint}
use cctop.Console.Modes.{mode_bold, fg_red, fg_yellow, fg_blue, fg_cyan, fg_magenta}
use cctop.Console.Output.{inverseln, end_section}
use cctop.Cpu.{Cpu, Naming}
use cctop.Cpu.Core.{CpuCore, core_stat, add_history}

-- The glyphs of the array `dots`, by level.
unfoldable pub dot : ℕ → ℕ
dot level = 0x2581 + level

module _ ⦃env : Env⦄ where
  unfoldable pub render_level : ℕ → Console → Console
  render_level zero c = fg_yellow c
  render_level (suc zero) c = fg_cyan c
  render_level (suc (suc zero)) c = c ▷ mode_bold true ▷ fg_cyan
  render_level (suc (suc (suc zero))) c = fg_blue c
  render_level (suc (suc (suc (suc zero)))) c = c ▷ mode_bold true ▷ fg_blue
  render_level (suc (suc (suc (suc (suc zero))))) c = fg_magenta c
  render_level (suc (suc (suc (suc (suc (suc zero)))))) c = c ▷ mode_bold true ▷ fg_magenta
  render_level (suc (suc (suc (suc (suc (suc (suc zero))))))) c = c ▷ fg_red ▷ mode_bold true
  render_level _ c = mode_clear c

  -- `renderColor`
  unfoldable pub render_color : ℤ → Console → Console
  render_color (pos n) c = render_level n c
  render_color (negsuc n) c = mode_clear c

  -- The `if` of `renderDot`, for levels from 0 to 7.
  unfoldable pub dot_cell : ℤ → Console → Console
  dot_cell (pos n) c = if leb n 7 then wprint "%lc" (chr (dot n) ∷ []) c else print " " [] c
  dot_cell (negsuc n) c = print " " [] c

  -- `renderDot`
  unfoldable pub render_dot : ℤ → Console → Console
  render_dot level c = c ▷ render_color level ▷ dot_cell level ▷ mode_clear

  -- `_use` of `CPUCore::print`
  unfoldable pub use_of : CpuCore → Double
  use_of core = add (add (of_u64 core.user) (of_u64 core.system)) (of_u64 core.nice)

  -- The ladder that sets `ndx`.
  unfoldable pub level_of : Double → ℕ
  level_of busy =
      if env.lt busy (lit 125 1)
      then 0
      else if env.lt busy (lit 250 1)
      then 1
      else if env.lt busy (lit 375 1)
      then 2
      else if env.lt busy (lit 500 1)
      then 3
      else if env.lt busy (lit 625 1)
      then 4
      else if env.lt busy (lit 750 1)
      then 5
      else if env.lt busy (lit 875 1)
      then 6
      else 7

  -- `use` and `left` of the bar.
  unfoldable pub bar_use : Double → Double
  bar_use busy = mul (div busy (lit 10 0)) (lit 2 0)

  unfoldable pub bar_left : Double → Double
  bar_left busy =
      let left = sub (lit 20 0) (bar_use busy) in
      if env.lt (lit 0 0) busy && env.eq (bar_use busy) (lit 0 0) then sub left (lit 1 0) else left

  -- The number of rounds of the loop `for (cnt = 0; cnt < left; cnt++)` from `cnt` on, counted up to
  -- the fuel.
  unfoldable pub blanks : (fuel cnt : ℕ) → Double → ℕ
  blanks zero cnt left = 0
  blanks (suc fuel) cnt left =
      let more = blanks fuel (cnt + 1) left in
      if env.lt (of_int (pos cnt)) left then suc more else 0

  -- Enough for a bar of 20 cells.
  abbrev pub bar_fuel : ℕ
  bar_fuel = 21

  unfoldable pub print_history : List ℤ → Console → Console
  print_history [] c = c
  print_history (i ∷ is) c = print_history is (c ▷ render_color i ▷ render_dot i ▷ mode_clear)

  unfoldable pub print_row : CpuCore → Console → Console
  print_row core c =
      let busy = use_of core in
      let ndx = pos (level_of busy) in
      c
      ▷ wprint "  %-6s %6.1f%% %6.1f%% %6.1f%% %6.1f%% %6.1f%% " (
          str core.name
          ∷ real busy
          ∷ real (of_u64 core.user)
          ∷ real (of_u64 core.system)
          ∷ real (of_u64 core.nice)
          ∷ real (sub (lit 100 0) busy)
          ∷ [])
      ▷ render_dot ndx
      ▷ mode_bold true
      ▷ print " [" []
      ▷ mode_clear
      ▷ render_color ndx
      ▷ repeat (pos_part (env.to_int (bar_use busy))) (wprint "%lc" (chr 0x25a0 ∷ []))
      ▷ repeat (blanks bar_fuel 0 (bar_left busy)) (print " " [])
      ▷ mode_clear
      ▷ mode_bold true
      ▷ print "] " []
      ▷ mode_clear
      ▷ print_history core.history
      ▷ newline true

  -- `CPUCore::print`, which first adds the level to the history.
  unfoldable pub print_core : CpuCore → Console → CpuCore × Console
  print_core core c =
      let core' = add_history (pos (level_of (use_of core))) core in (core', print_row core' c)

-- `CPU::print` needs the object `m[name]`; `none` is the busy of a null pointer.
abbrev pub Cores : Type 0
Cores = Map String CpuCore

module _ ⦃env : Env⦄ where
  unfoldable pub print_named : String → Cores → Console → Option (Cores × Console)
  print_named name m c = elim (lookup name m) [
    | none ↦ none
    | some core ↦ let (core', c') = print_core core c in some (insert name core' m, c')
  ]

  module _ ⦃names : Naming⦄ where
    -- The loop over the cores, with the count of lines so far.
    unfoldable pub print_cores : (left i count : ℕ) → Cores → Console → Option (Cores × Console × ℕ)
    print_cores zero i count m c = some (m, c, count)
    print_cores (suc left) i count m c = elim (print_named (names.core_name i) m c) [
      | none ↦ none
      | some (m', c') ↦ print_cores left (i + 1) (count + 1) m' c'
    ]

    abbrev pub header : Console → Console
    header = inverseln "  %-6s %7s %7s %7s %7s %7s    %-5.5s                 %s" (
        str "[C]PUS"
        ∷ str "Use"
        ∷ str "User"
        ∷ str "System"
        ∷ str "Nice"
        ∷ str "Idle"
        ∷ str "Gauge"
        ∷ str "History"
        ∷ [])

    -- `CPU::print`, with the number of lines that it returns.
    unfoldable pub print_cpu : Bool → Options → Cpu → Console → Option (Cpu × (Console × ℕ))
    print_cpu blank o cpu c = elim (print_named "CPU" cpu.sampler.delta (header c)) [
      | none ↦ none
      | some (m, c') ↦ elim (print_cores (if o.condense_cpu then 0 else cpu.num_cores) 0 2 m c') [
        | none ↦ none
        | some (m', d, count) ↦ some (
          record cpu { sampler = record cpu.sampler { delta = m' } },
          end_section blank (d, count),
        )
      ]
    ]
