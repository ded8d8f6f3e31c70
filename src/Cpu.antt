-- ===== src/Cpu.antt =====
-- macos/CPU.h and macos/CPU.cpp: class CPU, the load of the processor cores.
pub mod Core
pub mod Print
pub mod History
pub mod Level
pub mod Frame
pub mod Plain
pub mod Bar
pub mod Kept
pub mod Rows
pub mod Readings
pub mod Updates
use cctop.Prelude.{
  ℕ, zero, suc, ◌+◌, ◌/◌, String, Option, none, some, List, [], ◌∷◌, ◌≡◌, ◌≢◌, length, ◌==◌, true,
  false,
}
use cctop.Prelude.Words.{add64, to_u16}
use cctop.Map.{Map, string_key, lookup, insert}
use cctop.Sampler.{Sampler, copy, modify}
use cctop.Sampler.Interval.{advance}
use cctop.Cpu.Core.{CpuCore, core_stat}

-- `sprintf(name, "CPU%d", i)`, and what is used of it: distinct names, none of them "CPU".
pub record Naming : Type 0 where
  pub core_name : ℕ → String
  pub core_name_inj : (i j : ℕ) → core_name i ≡ core_name j → i ≡ j
  pub core_name-ne-cpu : (i : ℕ) → core_name i ≢ "CPU"

-- `cpu_ticks` of a core, as `host_processor_info` returns it.
pub record Ticks : Type 0 where
  pub user : ℕ
  pub system : ℕ
  pub idle : ℕ
  pub nice : ℕ

pub record Cpu : Type 0 where
  pub sampler : Sampler CpuCore
  pub total_ticks : ℕ
  pub num_cores : ℕ

unfoldable pub set_ticks : Ticks → CpuCore → CpuCore
set_ticks t c = record c { system = t.system; user = t.user; nice = t.nice; idle = t.idle }

unfoldable pub add_ticks : Ticks → CpuCore → CpuCore
unfolding add64
add_ticks t c = record c {
  system = add64 c.system t.system;
  user = add64 c.user t.user;
  nice = add64 c.nice t.nice;
  idle = add64 c.idle t.idle;
}

abbrev pub no_ticks : Ticks
no_ticks = record { user = 0; system = 0; idle = 0; nice = 0 }

module _ ⦃names : Naming⦄ where
  open names use {core_name}

  -- A round of the loop of `read`.
  unfoldable pub read_core : ℕ → Ticks → Map String CpuCore → Map String CpuCore
  read_core i t m = modify "CPU" (add_ticks t) (modify (core_name i) (set_ticks t) m)

  -- The loop, from core `i` on.
  unfoldable pub read_cores : ℕ → List Ticks → Map String CpuCore → Map String CpuCore
  read_cores i [] m = m
  read_cores i (t ∷ ts) m = read_cores (i + 1) ts (read_core i t m)

  -- `read(m)`; `ts` is what the system returns.
  unfoldable pub read : List Ticks → Map String CpuCore → Map String CpuCore
  read ts m = read_cores 0 ts (modify "CPU" (set_ticks no_ticks) m)

-- `total_ticks` after `read`.
unfoldable pub sum_ticks : ℕ → List Ticks → ℕ
unfolding add64
sum_ticks total [] = total
sum_ticks total (t ∷ ts) =
    sum_ticks (add64 total (add64 (add64 (add64 t.system t.user) t.idle) t.nice)) ts

unfoldable pub per_core : ℕ → CpuCore → CpuCore
per_core n c = record c {
  user = c.user / n;
  system = c.system / n;
  nice = c.nice / n;
  idle = c.idle / n;
}

-- The last statements of `update`: the totals are divided by the number of cores. `none` is the use of
-- a null pointer, or the trap of a division by 0.
unfoldable pub average : ℕ → Map String CpuCore → Option (Map String CpuCore)
average zero delta = none
average (suc n) delta = elim (lookup "CPU" delta) [
  | none ↦ none
  | some c ↦ some (insert "CPU" (per_core (suc n) c) delta)
]

module _ ⦃names : Naming⦄ where
  unfoldable pub update : List Ticks → Cpu → Option Cpu
  update ts cpu = elim (advance cpu.sampler (read ts cpu.sampler.current)) [
    | none ↦ none
    | some s ↦ elim (average cpu.num_cores s.delta) [
      | none ↦ none
      | some delta ↦
          some (record cpu { sampler = record s { delta = delta }; total_ticks = sum_ticks 0 ts })
    ]
  ]

  -- The constructor, which takes two readings.
  unfoldable pub start : (first second : List Ticks) → Option Cpu
  start first second =
      let current = read first [] in
      update second (record {
        sampler = record { last = copy [] current; current = current; delta = copy [] current };
        total_ticks = sum_ticks 0 first;
        num_cores = to_u16 (length first);
      })
