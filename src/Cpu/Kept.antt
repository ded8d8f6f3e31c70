-- ===== src/Cpu/Kept.antt =====
-- macos/CPU.cpp: `CPU::print` leaves a state that can be updated.
use cctop.Cpu.{Cpu, Naming}
use cctop.Cpu.Core.{core_stat}
use cctop.Cpu.Print.{Cores}
use cctop.Cpu.Rows.{Changed}
use cctop.Cpu.Updates
use cctop.Cpu.Updates.{Complete-Within}

-- The display keeps a valid state valid.
pub Changed-IsValid :
    ⦃names : Naming⦄ (cpu : Cpu) (m : Cores)
    → Updates.IsValid cpu
    → Changed cpu.sampler.delta m
    → Updates.IsValid (record cpu { sampler = record cpu.sampler { delta = m } })
Changed-IsValid cpu m v changed = record {
  sampled = record {
    current_named = v.sampled.current_named;
    current_distinct = v.sampled.current_distinct;
    last_named = v.sampled.last_named;
    last_distinct = v.sampled.last_distinct;
    delta_named = changed.named v.sampled.delta_named;
    delta_within = changed.within cpu.sampler.current v.sampled.delta_within;
  };
  complete = Complete-Within cpu.num_cores cpu.sampler.delta m changed.keeps v.complete;
  some_core = v.some_core;
}
