-- ===== src/Disk/Moved.antt =====
-- macos/Disk.cpp: what an update shows of the statistics of the drivers.
use cctop.Prelude.{
  ℕ, ◌+◌, ◌%◌, String, Option, none, some, List, [], ◌∷◌, ◌++◌, ◌≡◌, refl, ap, ◌∙◌, sym, false,
  arith, Option-cases, inl, inr,
}
use cctop.Prelude.Words.{add64, sub64, u64_mod}
use cctop.Map.{Map, string_key, lookup}
use cctop.Sampler.{obtain}
use cctop.Sampler.Interval
use cctop.Sampler.Modify.{lookup-modify}
use cctop.Disk.{Disk, Drive, Registry, Statistics, plus, set_stats, read_drive, read, update}
use cctop.Disk.Stats.{DiskStats, disk_stat, diff}
use cctop.Disk.Readings.{update_disk}

-- A number of the statistics, 0 if it is missing.
abbrev pub number : Option ℕ → ℕ
number none = 0
number (some n) = n

-- The sum of two of them, as a word.
abbrev pub sum : Option ℕ → Option ℕ → ℕ
sum a b = (number a + number b) % u64_mod

-- No drive of these has the name.
abbrev pub NoneNamed : String → List Drive → Type 0
NoneNamed name [] = Unit
NoneNamed name (d ∷ ds) = (string_key.eq d.name name ≡ false) × NoneNamed name ds

plus-number : (a : Option ℕ) → plus 0 a ≡ sum a none
unfolding plus add64
plus-number none = refl
plus-number (some n) = omega arith

plus-sum : (a b : Option ℕ) → plus (plus 0 a) b ≡ sum a b
unfolding plus add64
plus-sum none none = refl
plus-sum none (some n) = refl
plus-sum (some m) none = omega arith
plus-sum (some m) (some n) = omega arith

-- The totals of a driver with these statistics.
record Totals (x : Statistics) (s : DiskStats) : Type 0 where
  bytes : s.total_bytes ≡ sum x.bytes_read x.bytes_written
  read_bytes : s.total_read_bytes ≡ sum x.bytes_read none
  written_bytes : s.total_written_bytes ≡ sum x.bytes_written none
  transfers : s.total_transfers ≡ sum x.reads x.writes
  time : s.total_time ≡ sum x.read_time x.write_time

set_stats-Totals : (d : Drive) (x : Statistics) (s : DiskStats) → Totals x (set_stats d (some x) s)
unfolding set_stats
set_stats-Totals d x s = record {
  bytes = plus-sum x.bytes_read x.bytes_written;
  read_bytes = plus-number x.bytes_read;
  written_bytes = plus-number x.bytes_written;
  transfers = plus-sum x.reads x.writes;
  time = plus-sum x.read_time x.write_time;
}

-- Drives of other names leave an entry as it is.
read_others :
    (registry : Registry) (name : String) (ds : List Drive) (m : Map String DiskStats)
    → NoneNamed name ds
    → lookup name (read registry ds m) ≡ lookup name m
unfolding read read_drive
read_others registry name [] m h = refl
read_others registry name (d ∷ ds) m (other, h) =
    read_others registry name ds (read_drive registry d m) h
    ∙ elim (Option-cases (registry d.driver)) [
      | inl gone ↦ rw (gone, read_drive) refl
      | inr (x, found) ↦
          rw (found, read_drive) (lookup-modify d.name name (set_stats d x) m ∙ rw other refl)
    ]

-- The last drive of its name leaves its totals.
read-Totals :
    (registry : Registry) (before after : List Drive) (d : Drive) (x : Statistics)
    (m : Map String DiskStats)
    → NoneNamed d.name after
    → registry d.driver ≡ some (some x)
    → (s : DiskStats) × (lookup d.name (read registry (before ++ d ∷ after) m) ≡ some s)
      × Totals x s
unfolding read read_drive
read-Totals registry [] after d x m h told = (
  set_stats d (some x) (obtain d.name m),
  read_others registry d.name after (read_drive registry d m) h
      ∙ rw (told, read_drive)
          (lookup-modify d.name d.name (set_stats d (some x)) m
            ∙ rw ((string_key.eq_iff d.name d.name).1 refl) refl),
  set_stats-Totals d x (obtain d.name m),
)
read-Totals registry (e ∷ before) after d x m h told =
    read-Totals registry before after d x (read_drive registry e m) h told

some-injective : (a b : DiskStats) → some a ≡ some b → a ≡ b
some-injective a b e = cc

-- If the state is valid and its latest reading was from the registry `earlier`, an update from the
-- registry `later` uses no null pointer and leaves a valid state and the same drives; for the last drive
-- of its name, if its driver has statistics in both, each of the five totals of its entry `v` of `delta`
-- is then how far the total has moved, modulo 2^64: the bytes and those read and written, and the
-- transfers and the time, both of reads and writes together, where a missing number is 0.
pub totals_move :
    (earlier later : Registry) (before after : List Drive) (d : Drive) (m : Map String DiskStats)
    (disk : Disk) (v : DiskStats) (x y : Statistics)
    → Interval.IsValid disk.sampler
    → disk.devices ≡ before ++ d ∷ after
    → NoneNamed d.name after
    → disk.sampler.current ≡ read earlier (before ++ d ∷ after) m
    → lookup d.name disk.sampler.delta ≡ some v
    → earlier d.driver ≡ some (some x)
    → later d.driver ≡ some (some y)
    → (disk' : Disk) × (n : ℕ) × (s : DiskStats) × (update later disk ≡ some (disk', n))
      × Interval.IsValid disk'.sampler
      × (disk'.devices ≡ disk.devices)
      × (lookup d.name disk'.sampler.delta ≡ some s)
      × (s.total_bytes
          ≡ sub64 (sum y.bytes_read y.bytes_written) (sum x.bytes_read x.bytes_written))
      × (s.total_read_bytes ≡ sub64 (sum y.bytes_read none) (sum x.bytes_read none))
      × (s.total_written_bytes ≡ sub64 (sum y.bytes_written none) (sum x.bytes_written none))
      × (s.total_transfers ≡ sub64 (sum y.reads y.writes) (sum x.reads x.writes))
      × (s.total_time ≡ sub64 (sum y.read_time y.write_time) (sum x.read_time x.write_time))
unfolding diff
totals_move earlier later before after d m disk v x y valid drives last latest shown told told' =
    let (disk', done, same, adv) = update_disk later disk valid in
    let (n, o, en, eo, moved) = adv.shows d.name v shown in
    let (b, eb, new) = read-Totals later before after d y disk.sampler.current last told' in
    let (a, ea, old) = read-Totals earlier before after d x m last told in
    let is_old : o ≡ a = some-injective o a (sym eo ∙ ap (lookup d.name) latest ∙ ea) in
    let is_new : n ≡ b =
      some-injective n b
        (sym en ∙ ap (λ ds. lookup d.name (read later ds disk.sampler.current)) drives ∙ eb) in
    (
      disk',
      _,
      diff v n o,
      done,
      adv.valid,
      same,
      moved,
      rw (is_old, is_new, old.bytes, new.bytes) refl,
      rw (is_old, is_new, old.read_bytes, new.read_bytes) refl,
      rw (is_old, is_new, old.written_bytes, new.written_bytes) refl,
      rw (is_old, is_new, old.transfers, new.transfers) refl,
      rw (is_old, is_new, old.time, new.time) refl,
    )
