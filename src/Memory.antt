-- ===== src/Memory.antt =====
-- macos/Memory.h and macos/Memory.cpp: class Memory. What `sysconf`, `host_statistics64` and `sysctl`
-- answer is an argument.
pub mod Readings
pub mod Rows
use cctop.Prelude.{ℕ, ◌+◌, ◌/◌, ◌%◌, Bool, true, false, List, [], ◌∷◌, ◌▷◌, if◌then◌else◌}
use cctop.Prelude.Words.{u32_mod, add64, sub64, mul64}
use cctop.Terminal.{Env, Double, lit, of_u64, sub, mul, div, Arg, str, num}
use cctop.Options.{Options}
use cctop.Console.{Console, newline, print, println}
use cctop.Console.Output.{inverseln, end_section}
use cctop.Console.Gauge.{full, gauge}

pub record MemoryStats : Type 0 where
  pub total_pages : ℕ
  pub memory_used : ℕ
  pub memory_size : ℕ
  pub memory_free : ℕ
  pub free_count : ℕ
  pub active_count : ℕ
  pub inactive_count : ℕ
  pub wire_count : ℕ
  pub external_page_count : ℕ
  pub purgeable_count : ℕ
  pub pageins : ℕ
  pub pageouts : ℕ
  pub faults : ℕ
  pub swapins : ℕ
  pub swapouts : ℕ
  pub swap_used : ℕ
  pub swap_free : ℕ
  pub swap_size : ℕ

-- The object is static, so its fields start at 0.
abbrev pub zeroed_stats : MemoryStats
zeroed_stats = record {
  total_pages = 0;
  memory_used = 0;
  memory_size = 0;
  memory_free = 0;
  free_count = 0;
  active_count = 0;
  inactive_count = 0;
  wire_count = 0;
  external_page_count = 0;
  purgeable_count = 0;
  pageins = 0;
  pageouts = 0;
  faults = 0;
  swapins = 0;
  swapouts = 0;
  swap_used = 0;
  swap_free = 0;
  swap_size = 0;
}

-- `vm_statistics64` and `xsw_usage`, the fields that are read. The page counts are 32-bit words.
pub record VmStat : Type 0 where
  pub free_count : ℕ
  pub active_count : ℕ
  pub inactive_count : ℕ
  pub wire_count : ℕ
  pub external_page_count : ℕ
  pub purgeable_count : ℕ
  pub compressor_page_count : ℕ
  pub pageins : ℕ
  pub pageouts : ℕ
  pub faults : ℕ
  pub swapins : ℕ
  pub swapouts : ℕ
  pub xsu_total : ℕ
  pub xsu_used : ℕ
  pub xsu_avail : ℕ

-- The sums of `read`, of 32-bit words.
unfoldable pub all_pages : VmStat → ℕ
all_pages v =
    (v.wire_count + v.active_count + v.inactive_count + v.free_count + v.compressor_page_count)
    % u32_mod

unfoldable pub used_pages : VmStat → ℕ
used_pages v =
    (v.wire_count + v.active_count + v.compressor_page_count + v.inactive_count) % u32_mod

-- `read(stats)`, which sets every field.
unfoldable pub read : ℕ → VmStat → MemoryStats
read page_size v = record {
  free_count = v.free_count;
  active_count = v.active_count;
  inactive_count = v.inactive_count;
  wire_count = v.wire_count;
  external_page_count = v.external_page_count;
  purgeable_count = v.purgeable_count;
  pageins = v.pageins;
  pageouts = v.pageouts;
  faults = v.faults;
  swapins = v.swapins;
  swapouts = v.swapouts;
  total_pages = all_pages v;
  memory_size = mul64 (all_pages v) page_size;
  memory_used = mul64 page_size (used_pages v);
  memory_free =
      sub64 (sub64 (mul64 (all_pages v) page_size) (mul64 page_size (used_pages v)))
        v.inactive_count;
  swap_size = v.xsu_total;
  swap_used = v.xsu_used;
  swap_free = v.xsu_avail;
}

pub record Memory : Type 0 where
  pub last : MemoryStats
  pub current : MemoryStats
  pub delta : MemoryStats
  pub page_size : ℕ

-- The assignments of `update` to `delta`; it leaves the other fields.
unfoldable pub set_delta : MemoryStats → MemoryStats → MemoryStats → MemoryStats
set_delta delta current last = record delta {
  free_count = sub64 current.free_count last.free_count;
  active_count = sub64 current.active_count last.active_count;
  inactive_count = sub64 current.inactive_count last.inactive_count;
  wire_count = sub64 current.wire_count last.wire_count;
  pageins = sub64 current.pageins last.pageins;
  pageouts = sub64 current.pageouts last.pageouts;
  faults = sub64 current.faults last.faults;
  swapins = sub64 current.swapins last.swapins;
  swapouts = sub64 current.swapouts last.swapouts;
  swap_size = sub64 current.swap_size last.swap_size;
  swap_used = sub64 current.swap_used last.swap_used;
  swap_free = sub64 current.swap_free last.swap_free;
}

unfoldable pub update : VmStat → Memory → Memory
update v m =
    let current = read m.page_size v in
    record m { current = current; delta = set_delta m.delta current m.last }

-- The constructor, with the answers to its two readings.
unfoldable pub start : ℕ → VmStat → VmStat → Memory
start page_size first second = update second (record {
  last = read page_size first;
  current = zeroed_stats;
  delta = zeroed_stats;
  page_size = page_size;
})

-- `x / 1024 / 1024`
abbrev pub megas : ℕ → ℕ
megas x = x / 1024 / 1024

unfoldable pub cached : Memory → ℕ
cached m = mul64 m.page_size (add64 m.current.external_page_count m.current.purgeable_count)

-- `pct*100`
unfoldable pub used_pct : Memory → Double
used_pct m =
    mul
      (div (sub (of_u64 m.current.memory_used) (of_u64 (cached m))) (of_u64 m.current.memory_size))
      (lit 100 0)

-- The line for swap, for which `print` does not count.
unfoldable pub print_swap : Options → Memory → Console → Console
print_swap o m c =
    if o.condense_memory
    then c
    else println "  %-12s %'9lld %'9lld %'9lld"
        (str "Swap"
          ∷ num (megas m.current.swap_size)
          ∷ num (megas m.current.swap_used)
          ∷ num (megas m.current.swap_free)
          ∷ [])
        c

-- The lines of `printVirtualMemory` after the header. The aggregate of what goes out is divided by
-- 10924 and 1024.
unfoldable pub print_paging : Memory → Console × ℕ → Console × ℕ
print_paging m (c, count) = (
  c
      ▷ println "  %-12s %'9lld   %'9lld %'9lld     %'9lld" (
          str "Page"
          ∷ num (megas m.delta.pageins)
          ∷ num (megas m.delta.pageouts)
          ∷ num (megas m.current.pageins)
          ∷ num (m.current.pageouts / 10924 / 1024)
          ∷ [])
      ▷ println "  %-12s %'9lld   %'9lld %'9lld     %'9lld" (
          str "Swap"
          ∷ num (megas m.delta.swapins)
          ∷ num (megas m.delta.swapouts)
          ∷ num (megas m.current.swapins)
          ∷ num (m.current.swapouts / 10924 / 1024)
          ∷ []),
  count + 2,
)

module _ ⦃env : Env⦄ where
  -- The header and the line of the real memory.
  unfoldable pub print_real : Memory → Console → Console
  print_real m c =
      c
      ▷ inverseln "%-12s   %9s %9s %9s %9s %9s" (
          str "  [M]EMORY"
          ∷ str "Total"
          ∷ str "Used"
          ∷ str "Free"
          ∷ str "Wired"
          ∷ str "Cached"
          ∷ [])
      ▷ print "  %-12s %'9lld %'9lld %'9lld %'9lld %'9lld " (
          str "Real"
          ∷ num (megas m.current.memory_size)
          ∷ num (megas m.current.memory_used)
          ∷ num (megas m.current.memory_free)
          ∷ num m.current.wire_count
          ∷ num (megas (cached m))
          ∷ [])
      ▷ gauge 20 (used_pct m) full
      ▷ newline true

  -- `Memory::print`, with the number that it returns.
  unfoldable pub print_memory : Bool → Options → Memory → Console → Console × ℕ
  print_memory blank o m c = end_section blank (print_swap o m (print_real m c), 2)

  unfoldable pub virtual_header : Console → Console
  virtual_header =
      inverseln "  %-16s %19s %22s"
        (str "[V]IRTUAL MEMORY" ∷ str "  IN Current OUT  " ∷ str "  IN Aggregate OUT " ∷ [])

  unfoldable pub print_virtual_memory : Bool → Options → Memory → Console → Console × ℕ
  print_virtual_memory blank o m c = end_section blank (
      if o.condense_virtual_memory
      then (virtual_header c, 1)
      else print_paging m (virtual_header c, 1))
