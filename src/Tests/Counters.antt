-- ===== src/Tests/Counters.antt =====
-- The cores, the memory and the uptime.
use cctop.Cpu.Bar.{Computes, bar_ends}
use cctop.Cpu.Print.{blanks, bar_fuel, bar_left}
use cctop.Terminal.{lit, of_int, Double, Env, mul, div, sub}
use cctop.Prelude.{zero, drop, false, true, ltb, ◌-◌, ◌/◌}
use cctop.Cpu.History.{add_all, add_all_lem}
use cctop.Memory.{MemoryStats}
use cctop.VirtualMemory.{VirtualMemory}
use cctop.VirtualMemory
use cctop.VirtualMemory.Totals.{total, of_pageins, deltas_add_up}
use cctop.Prelude.{
  ℕ, ◌+◌, ◌*◌, ◌≤◌, ◌<◌, ◌≡◌, refl, some, List, [], ◌∷◌, ◌++◌, arith, length, replicate, ◌⊎◌,
}
use cctop.Prelude.Int.{ℤ, pos, pos_part}
use cctop.Prelude.Words.{sub64, u64_mod}
use cctop.Map.{lookup, string_key}
use cctop.Cpu.{Cpu, update, read}
use cctop.Cpu.Core.{CpuCore, fresh_core, cpu_history_size, core_stat}
use cctop.Cpu.Updates
use cctop.Cpu.Updates.{CoreShows, update_lem, update_shows_ticks, start-IsValid}
use cctop.Memory.{Memory, VmStat}
use cctop.Memory
use cctop.Memory.Readings.{updates, memory_adds_up, deltas_since_start}
use cctop.Platform.{title_fill}
use cctop.Platform.Rows.{title_fill_lem}
use cctop.Tests.Samples.{sample_env, sample_names, ticks_then, ticks_now}

-- The state that the constructor leaves.
pub sample_cpu : Cpu
sample_cpu = (start-IsValid ticks_then ticks_now (omega arith) (omega arith)).0

pub sample_cpu-IsValid : Updates.IsValid sample_cpu
unfolding sample_cpu
sample_cpu-IsValid = (start-IsValid ticks_then ticks_now (omega arith) (omega arith)).2

sample_cores : sample_cpu.num_cores ≡ 2
unfolding sample_cpu
sample_cores = (start-IsValid ticks_then ticks_now (omega arith) (omega arith)).3

update_lem_example :
    (cpu : Cpu) × (update ticks_then sample_cpu ≡ some cpu)
    × Updates.IsValid cpu
    × (cpu.num_cores ≡ sample_cpu.num_cores)
    × (cpu.sampler.current ≡ read ticks_then sample_cpu.sampler.current)
    × ((i : ℕ) → i < sample_cpu.num_cores → CoreShows sample_cpu ticks_then cpu i)
update_lem_example = update_lem ticks_then sample_cpu sample_cpu-IsValid

-- The state one update later.
next_cpu : Cpu
next_cpu = (update_lem ticks_then sample_cpu sample_cpu-IsValid).0

next_cpu-IsValid : Updates.IsValid next_cpu
unfolding next_cpu
next_cpu-IsValid = (update_lem ticks_then sample_cpu sample_cpu-IsValid).2

next_cpu_current : next_cpu.sampler.current ≡ read ticks_then sample_cpu.sampler.current
unfolding next_cpu
next_cpu_current = (update_lem ticks_then sample_cpu sample_cpu-IsValid).4

next_cores : next_cpu.num_cores ≡ 2
unfolding next_cpu
next_cores = omega (arith, (update_lem ticks_then sample_cpu sample_cpu-IsValid).3, sample_cores)

update_shows_ticks_example :
    (cpu' : Cpu) × (c : CpuCore) × (update ticks_now next_cpu ≡ some cpu')
    × (lookup (sample_names.core_name 1) cpu'.sampler.delta ≡ some c)
    × (c.user ≡ sub64 19 11)
    × (c.system ≡ sub64 21 21)
    × (c.idle ≡ sub64 341 301)
    × (c.nice ≡ sub64 3 1)
update_shows_ticks_example =
    update_shows_ticks ticks_then ticks_now sample_cpu.sampler.current next_cpu 1
      (record { user = 11; system = 21; idle = 301; nice = 1 })
      (record { user = 19; system = 21; idle = 341; nice = 3 }) next_cpu-IsValid next_cpu_current
      (omega (arith, next_cores)) refl refl

fresh_user : (fresh_core "CPU").user < u64_mod
unfolding fresh_core
fresh_user = omega arith

fresh_system : (fresh_core "CPU").system < u64_mod
unfolding fresh_core
fresh_system = omega arith

fresh_idle : (fresh_core "CPU").idle < u64_mod
unfolding fresh_core
fresh_idle = omega arith

fresh_nice : (fresh_core "CPU").nice < u64_mod
unfolding fresh_core
fresh_nice = omega arith

abbrev levels : List ℤ
levels = replicate 19 (pos 4)

abbrev old_core : CpuCore
old_core = record {
  id = 0;
  name = "CPU";
  user = 0;
  nice = 0;
  system = 0;
  idle = 0;
  history = pos 7 ∷ levels;
}

abbrev pub pages : VmStat
pages = record {
  free_count = 1000;
  active_count = 500;
  inactive_count = 300;
  wire_count = 200;
  external_page_count = 50;
  purgeable_count = 10;
  compressor_page_count = 20;
  pageins = 70;
  pageouts = 8;
  faults = 9;
  swapins = 6;
  swapouts = 5;
  xsu_total = 4096;
  xsu_used = 1024;
  xsu_avail = 3072;
}

memory_adds_up_example :
    let s = Memory.read 4096 pages in
    (s.memory_size ≡ s.memory_used + 4096 * 1000) × (s.memory_free ≡ sub64 (4096 * 1000) 300)
memory_adds_up_example = memory_adds_up 4096 pages (omega arith) (omega arith)

deltas_since_start_example :
    let m = Memory.update pages (updates (pages ∷ []) (Memory.start 4096 pages pages)) in
    (m.delta.pageins ≡ sub64 70 70)
    × (m.delta.pageouts ≡ sub64 8 8)
    × (m.delta.swapins ≡ sub64 6 6)
    × (m.delta.swapouts ≡ sub64 5 5)
deltas_since_start_example = deltas_since_start 4096 pages pages pages (pages ∷ [])

abbrev pub sample_memory : Memory.Memory
sample_memory = Memory.start 4096 pages pages

title_fill_lem_example :
    ((40 + 24 + 2 ≤ 100) × (40 + title_fill 100 40 24 + 24 + 2 ≡ 100))
    ⊎ ((100 < 40 + 24 + 2) × (100 + 1 < title_fill 100 40 24))
title_fill_lem_example = title_fill_lem 100 40 24 (omega arith) (omega arith) (omega arith)

add_all_lem_example :
    ((add_all (pos 2 ∷ pos 3 ∷ []) old_core).history
      ≡ drop 2 (old_core.history ++ pos 2 ∷ pos 3 ∷ []))
    × (length (add_all (pos 2 ∷ pos 3 ∷ []) old_core).history ≡ cpu_history_size)
add_all_lem_example = add_all_lem (pos 2 ∷ pos 3 ∷ []) old_core refl

abbrev paged : ℕ → MemoryStats
paged n = record Memory.zeroed_stats { pageins = n }

abbrev sample_paging : VirtualMemory
sample_paging = VirtualMemory.start (paged 10) (paged 12)

deltas_add_up_example : total of_pageins (paged 20 ∷ paged 5 ∷ []) sample_paging ≡ sub64 5 12
unfolding VirtualMemory.start VirtualMemory.update VirtualMemory.read
deltas_add_up_example =
    deltas_add_up of_pageins (paged 20 ∷ paged 5 ∷ []) sample_paging (omega arith)
      (omega arith, (omega arith, tt))

-- Doubles cut to whole numbers, as far as they have a value.
abbrev value : Double → ℕ
value (lit n zero) = n
value (of_int n) = pos_part n
value (mul x y) = value x * value y
value (div x y) = value x / value y
value (sub x y) = value x - value y
value _ = 0

abbrev whole_env : Env
whole_env = record sample_env { lt = λ x y. ltb (value x) (value y) }

ltb_not : (x y : ℕ) → y ≤ x → ltb x y ≡ false
ltb_not x y h = ground (arith, h)

whole_env-Computes : Computes ⦃env = whole_env⦄
whole_env-Computes = record {
  times = λ x n h. ltb_not _ 0 (omega arith);
  over = λ x n h. ltb_not _ 0 (omega arith);
  whole = λ n. ltb_not n n (omega arith);
  literal = λ n. ltb_not n 0 (omega arith);
  less = λ z x y h k. less_lem (value z) (value x) (value y) h;
}
  where
    less_lem : (z x y : ℕ) → ltb z x ≡ false → ltb z (x - y) ≡ false
    less_lem z x y h = ground (arith, h)

-- A core that is in use for 40 percent: its bar has 8 cells, and 12 blanks.
bar_ends_example :
    let left = bar_left ⦃env = whole_env⦄ (lit 40 0) in
    let k = blanks ⦃env = whole_env⦄ bar_fuel 0 left in
    (k ≤ 20)
    × (whole_env.lt (of_int (pos k)) left ≡ false)
    × ((whole_env.lt (of_int (pos 7)) left ≡ true) ⊎ (k ≤ 7))
bar_ends_example = bar_ends ⦃env = whole_env⦄ whole_env-Computes (lit 40 0) 7 refl
