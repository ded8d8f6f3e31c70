-- ===== src/Cpu/Core.antt =====
-- macos/CPU.h and macos/CPU.cpp: struct CPUCore, a core with its counters and its history of levels.
use cctop.Prelude.{ℕ, zero, suc, ◌+◌, ◌-◌, String, List, ◌≡◌, refl, replicate, set, get_or}
use cctop.Prelude.Int.{ℤ, negsuc}
use cctop.Prelude.Words.{sub64}
use cctop.Sampler.{Stat}

abbrev pub cpu_history_size : ℕ
cpu_history_size = 20

pub record CpuCore : Type 0 where
  pub id : ℕ
  pub name : String
  pub user : ℕ
  pub nice : ℕ
  pub system : ℕ
  pub idle : ℕ
  pub history : List ℤ

-- -1, the level of a sample that was not taken
abbrev pub unset : ℤ
unset = negsuc 0

-- `new CPUCore` and the name that is given to it.
unfoldable pub fresh_core : String → CpuCore
fresh_core name = record {
  id = 0;
  name = name;
  user = 0;
  nice = 0;
  system = 0;
  idle = 0;
  history = replicate cpu_history_size unset;
}

unfoldable pub diff : CpuCore → CpuCore → CpuCore → CpuCore
diff this newer older = record this {
  user = sub64 newer.user older.user;
  nice = sub64 newer.nice older.nice;
  system = sub64 newer.system older.system;
  idle = sub64 newer.idle older.idle;
}

-- The body of `CPU::copy`; the history stays.
unfoldable pub assign : CpuCore → CpuCore → CpuCore
assign cpu o = record cpu { user = o.user; system = o.system; idle = o.idle; nice = o.nice }

pub name-fresh_core : (k : String) → (fresh_core k).name ≡ k
unfolding fresh_core
name-fresh_core k = refl

pub name-assign : (d s : CpuCore) → (assign d s).name ≡ d.name
unfolding assign
name-assign d s = refl

pub name-diff : (d n o : CpuCore) → (diff d n o).name ≡ d.name
unfolding diff
name-diff d n o = refl

pub diff-assign : (d n l o : CpuCore) → diff d n (assign l o) ≡ diff d n o
unfolding diff assign
diff-assign d n l o = refl

instance abbrev pub core_stat : Stat CpuCore
core_stat = record {
  name = λ c. c.name;
  fresh = fresh_core;
  assign = assign;
  diff = diff;
  name-fresh = name-fresh_core;
  name-assign = name-assign;
  name-diff = name-diff;
  diff-assign = diff-assign;
}

-- The loop of `addHistory` from `i` on, with `left` rounds to go.
unfoldable pub shift : (left i : ℕ) → List ℤ → List ℤ
shift zero i history = history
shift (suc left) i history = shift left (i + 1) (set history i (get_or history (i + 1) unset))

unfoldable pub add_history : ℤ → CpuCore → CpuCore
add_history h c = record c {
  history = set (shift (cpu_history_size - 1) 0 c.history) (cpu_history_size - 1) h;
}
