-- ===== src/Disk/Readings.antt =====
-- macos/Disk.cpp: readings and updates.
use cctop.Prelude.{
  String, Option, none, some, List, [], ◌∷◌, ◌≡◌, refl, length, Option-cases, inl, inr,
}
use cctop.Prelude.Words.{to_u16}
use cctop.Map.{Map, string_key, Distinct}
use cctop.Sampler.{Named}
use cctop.Sampler.Interval
use cctop.Sampler.Interval.{IsReading, Advances, advance_lem}
use cctop.Sampler.Modify.{modify-IsReading, IsReading-trans, IsReading-refl}
use cctop.Disk.{Disk, Drive, Registry, Statistics, set_stats, read_drive, read, update}
use cctop.Disk.Stats.{DiskStats, disk_stat}

set_stats-name :
    (d : Drive) (x : Option Statistics) (s : DiskStats) → (set_stats d x s).name ≡ s.name
unfolding set_stats
set_stats-name d none s = refl
set_stats-name d (some x) s = refl

read_drive-IsReading :
    (registry : Registry) (d : Drive) (m : Map String DiskStats)
    → Named m
    → Distinct m
    → IsReading m (read_drive registry d m)
unfolding read_drive
read_drive-IsReading registry d m n e = elim (Option-cases (registry d.driver)) [
  | inl gone ↦ rw (gone, read_drive) (IsReading-refl m n e)
  | inr (x, found) ↦
      rw (found, read_drive) (modify-IsReading d.name (set_stats d x) m (set_stats-name d x) n e)
]

-- `read` keeps every name and leaves each object under its own.
pub read_drives-IsReading :
    (registry : Registry) (ds : List Drive) (m : Map String DiskStats)
    → Named m
    → Distinct m
    → IsReading m (read registry ds m)
unfolding read
read_drives-IsReading registry [] m n e = IsReading-refl m n e
read_drives-IsReading registry (d ∷ ds) m n e =
    let one = read_drive-IsReading registry d m n e in
    IsReading-trans m (read_drive registry d m) _ one
      (read_drives-IsReading registry ds (read_drive registry d m) one.named one.distinct)

-- From a valid state, `update` meets no null pointer, keeps the drives, and advances the three maps
-- by the new reading.
pub update_disk :
    (registry : Registry) (d : Disk)
    → Interval.IsValid d.sampler
    → (d' : Disk) × (update registry d ≡ some (d', to_u16 (length d.devices)))
      × (d'.devices ≡ d.devices)
      × Advances d.sampler (read registry d.devices d.sampler.current) d'.sampler
unfolding update
update_disk registry d h =
    let (q, done, adv) = advance_lem d.sampler (read registry d.devices d.sampler.current) h (
      read_drives-IsReading registry d.devices d.sampler.current h.current_named
        h.current_distinct) in
    (record d { sampler = q }, rw (done, update) refl, refl, adv)
