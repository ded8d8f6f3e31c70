-- ===== src/VirtualMemory.antt =====
-- macos/VirtualMemory.h and macos/VirtualMemory.cpp, which `#if 0` leaves out of the program. What it
-- reads, `memory.current`, is an argument.
pub mod Totals
use cctop.Prelude.{ℕ, ◌+◌, Bool, List, [], ◌∷◌, ◌▷◌, ◌≡◌, refl, arith, if◌then◌else◌}
use cctop.Prelude.Words.{u64_mod, add64, sub64}
use cctop.Terminal.{Env, num, str}
use cctop.Console.{Console, printed, println}
use cctop.Console.Lines.{printed-println, printed-inverseln}
use cctop.Console.Output.{inverseln}
use cctop.Memory.{MemoryStats}

pub record VmStats : Type 0 where
  pub pageins : ℕ
  pub pageouts : ℕ
  pub swapins : ℕ
  pub swapouts : ℕ

pub record VirtualMemory : Type 0 where
  pub last : VmStats
  pub current : VmStats
  pub delta : VmStats

-- `VMStats::diff`, in words of 64 bits.
unfoldable pub diff : VmStats → VmStats → VmStats
diff newer older = record {
  pageins = sub64 newer.pageins older.pageins;
  pageouts = sub64 newer.pageouts older.pageouts;
  swapins = sub64 newer.swapins older.swapins;
  swapouts = sub64 newer.swapouts older.swapouts;
}

-- `copy` gives `dst` the fields of `src`, which are all that it has.
unfoldable pub copy : VmStats → VmStats
copy src = record {
  pageins = src.pageins;
  pageouts = src.pageouts;
  swapins = src.swapins;
  swapouts = src.swapouts;
}

unfoldable pub read : MemoryStats → VmStats
read m = record {
  pageins = m.pageins;
  pageouts = m.pageouts;
  swapins = m.swapins;
  swapouts = m.swapouts;
}

unfoldable pub update : MemoryStats → VirtualMemory → VirtualMemory
update m v =
    let last = copy v.current in
    let current = read m in record { last = last; current = current; delta = diff current last }

-- The constructor: a reading, copied, and an update with a second one.
unfoldable pub start : MemoryStats → MemoryStats → VirtualMemory
start first second =
    let current = read first in
    update second (record { last = copy current; current = current; delta = copy current })

module _ ⦃env : Env⦄ where
  -- With `test` it tells the number of lines and prints none.
  unfoldable pub print : Bool → VirtualMemory → Console → Console × ℕ
  print test v c = if test then (c, 4) else (
    c
        ▷ inverseln "%-16s %12s %23s" (str "VIRTUAL MEMORY" ∷ str "Current" ∷ str "Aggregate" ∷ [])
        ▷ inverseln "%-16s %6s %6s %12s %12s"
            (str "" ∷ str "IN" ∷ str "OUT" ∷ str "IN" ∷ str "OUT" ∷ [])
        ▷ println "%-16s %6d %6d %12d %12d" (
            str "Page"
            ∷ num v.delta.pageins
            ∷ num v.delta.pageouts
            ∷ num v.current.pageins
            ∷ num v.current.pageouts
            ∷ [])
        ▷ println "%-16s %6d %6d %12d %12d" (
            str "Swap"
            ∷ num v.delta.swapins
            ∷ num v.delta.swapouts
            ∷ num v.current.swapins
            ∷ num v.current.swapouts
            ∷ []),
    4,
  )
