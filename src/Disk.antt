-- ===== src/Disk.antt =====
-- macos/Disk.h and macos/Disk.cpp: class Disk, the drives and their activity. What IOKit knows of a
-- drive is an argument. Its handles, and the reference counts of its objects, are not modelled.
pub mod Stats
pub mod Devices
pub mod Table
pub mod Startup
pub mod Readings
pub mod Moved
pub mod Rows
use cctop.Prelude.{
  ℕ, ◌+◌, String, Bool, true, false, not, Option, none, some, List, [], ◌∷◌, ◌++◌, ltb, length,
  if◌then◌else◌,
}
use cctop.Prelude.Words.{add64, to_u16}
use cctop.Terminal.{Arg, str, num}
use cctop.Map.{Map, string_key, str_less}
use cctop.Sort.{sort}
use cctop.Sampler.{Sampler, copy, modify}
use cctop.Sampler.Interval.{advance}
use cctop.Options.{Options}
use cctop.Terminal.{Env}
use cctop.Console.{Console, println}
use cctop.Console.Session.{Outcome, running, exited, abort}
use cctop.Console.Output.{inverseln, end_section}
use cctop.Disk.Stats.{DiskStats, disk_stat}

abbrev pub max_drives : ℕ
max_drives = 16

-- An entry of `drivestat`: the fields that are used. The list is the first `num_devices` entries.
pub record Drive : Type 0 where
  pub driver : ℕ
  pub name : String
  pub blocksize : ℕ

-- The properties of a drive in the registry, and its parent; `none` is what a call fails to find. `name`
-- is the name as `CFStringGetCString` puts it in a buffer of `MAXDRIVENAME` bytes, and `converted`
-- whether that call succeeds: it does not for a name that is too long, and `record_device` does not ask.
pub record Properties : Type 0 where
  pub converted : Bool
  pub name : Option String
  pub blocksize : Option ℕ

pub record Parent : Type 0 where
  pub driver : ℕ
  pub is_block_storage : Bool

pub record Media : Type 0 where
  pub parent : Option Parent
  pub properties : Option Properties

-- The checks on the properties of a drive, with the entry that it gets.
unfoldable pub new_entry : ℕ → Option Properties → Console → Outcome Drive
new_entry driver none con = abort "device has no properties" [] con
new_entry driver (some p) con = elim p.name [
  | none ↦ abort "device does not have a BSD name" [] con
  | some name ↦ elim p.blocksize [
    | none ↦ abort "device does not have a preferred block size" [] con
    | some size ↦ running (record { driver = driver; name = name; blocksize = size })
  ]
]

-- `record_device`, with its result (0 if the drive was kept, 1 if not) as a Boolean.
unfoldable pub record_device : Media → List Drive → Console → Outcome (Bool × List Drive)
record_device drive ds con = elim drive.parent [
  | none ↦ abort "device has no parent" [] con
  | some parent ↦
      if parent.is_block_storage
      then (elim (new_entry parent.driver drive.properties con) [
        | running d ↦ running (true, ds ++ d ∷ [])
        | exited s c ↦ exited s c
      ])
      else running (false, ds)
]

-- `compare_drivestats` and the `qsort` by it
unfoldable pub sort_drives : List Drive → List Drive
sort_drives = sort (λ a b. str_less a.name b.name)

-- The loop of `record_drivelist`.
unfoldable pub record_drives : List Media → List Drive → Console → Outcome (List Drive)
record_drives [] ds con = running ds
record_drives (m ∷ ms) ds con =
    elim (if ltb (length ds) max_drives then record_device m ds con else running (false, ds)) [
      | running r ↦ record_drives ms r.1 con
      | exited s c ↦ exited s c
    ]

unfoldable pub record_drivelist : List Media → List Drive → Console → Outcome (List Drive)
record_drivelist ms ds con = elim (record_drives ms ds con) [
  | running ds' ↦ running (sort_drives ds')
  | exited s c ↦ exited s c
]

-- The loop over the entries in `remove_drivelist`: the first one of that name, if there is one, is
-- taken out by `memmove`. (The call also reads an entry past the end of the array, to no effect on the
-- entries that count.)
unfoldable pub remove_named : String → List Drive → Option (List Drive)
remove_named name [] = none
remove_named name (d ∷ ds) =
    if string_key.eq name d.name
    then some ds
    else (elim (remove_named name ds) [ none ↦ none | some ds' ↦ some (d ∷ ds') ])

-- A round of `remove_drivelist`.
unfoldable pub remove_drive : Media → List Drive → List Drive
remove_drive m ds = elim m.properties [
  | none ↦ ds
  | some p ↦ elim p.name [
    | none ↦ ds
    | some name ↦
        if p.converted
        then (elim (remove_named name ds) [ none ↦ ds | some ds' ↦ sort_drives ds' ])
        else ds
  ]
]

unfoldable pub remove_drivelist : List Media → List Drive → List Drive
remove_drivelist [] ds = ds
remove_drivelist (m ∷ ms) ds = remove_drivelist ms (remove_drive m ds)

-- `record_all_devices`: the drives that are there, less those that have terminated. Either may be
-- `none`, for a status that is not KERN_SUCCESS.
unfoldable pub remove_terminated : Option (List Media) → List Drive → Console → Outcome (List Drive)
remove_terminated none ds con = abort "couldn't match whole IOMedia device removal" [] con
remove_terminated (some removed) ds con = running (remove_drivelist removed ds)

unfoldable pub record_all_devices :
    (found removed : Option (List Media)) → List Drive → Console → Outcome (List Drive)
record_all_devices none removed ds con = abort "couldn't match whole IOMedia devices" [] con
record_all_devices (some found) removed ds con = elim (record_drivelist found ds con) [
  | exited s c ↦ exited s c
  | running ds' ↦ remove_terminated removed ds' con
]

-- The numbers of a driver's statistics; a key that is missing is skipped.
pub record Statistics : Type 0 where
  pub bytes_read : Option ℕ
  pub bytes_written : Option ℕ
  pub reads : Option ℕ
  pub writes : Option ℕ
  pub read_time : Option ℕ
  pub write_time : Option ℕ

-- `if ((number = …)) total += value;`
unfoldable pub plus : ℕ → Option ℕ → ℕ
plus total none = total
plus total (some value) = add64 total value

-- The statements of `read` for a drive of which the properties were found.
unfoldable pub set_stats : Drive → Option Statistics → DiskStats → DiskStats
set_stats d none s = record s {
  blocksize = d.blocksize;
  total_bytes = 0;
  total_read_bytes = 0;
  total_written_bytes = 0;
  total_transfers = 0;
  total_time = 0;
}
set_stats d (some x) s = record s {
  blocksize = d.blocksize;
  total_bytes = plus (plus 0 x.bytes_read) x.bytes_written;
  total_read_bytes = plus 0 x.bytes_read;
  total_written_bytes = plus 0 x.bytes_written;
  total_transfers = plus (plus 0 x.reads) x.writes;
  total_time = plus (plus 0 x.read_time) x.write_time;
}

-- What the registry says of a driver: no properties, or properties with or without statistics.
abbrev pub Registry : Type 0
Registry = ℕ → Option (Option Statistics)

unfoldable pub read_drive : Registry → Drive → Map String DiskStats → Map String DiskStats
read_drive registry d m = elim (registry d.driver) [
  | none ↦ m
  | some stats ↦ modify d.name (set_stats d stats) m
]

-- `read(m)`
unfoldable pub read : Registry → List Drive → Map String DiskStats → Map String DiskStats
read registry [] m = m
read registry (d ∷ ds) m = read registry ds (read_drive registry d m)

pub record Disk : Type 0 where
  pub devices : List Drive
  pub sampler : Sampler DiskStats

-- The constructor: the table, and a first reading.
unfoldable pub start : (found removed : Option (List Media)) → Registry → Console → Outcome Disk
start found removed registry con = elim (record_all_devices found removed [] con) [
  | exited s c ↦ exited s c
  | running devices ↦
      let current = read registry devices [] in
      running (record {
        devices = devices;
        sampler = record { last = copy [] current; current = current; delta = copy [] current };
      })
]

unfoldable pub update : Registry → Disk → Option (Disk × ℕ)
update registry d = elim (advance d.sampler (read registry d.devices d.sampler.current)) [
  | none ↦ none
  | some s ↦ some (record d { sampler = s }, to_u16 (length d.devices))
]

-- The line of a drive.
unfoldable pub print_stats : DiskStats → Console → Console
print_stats s = println "  %-16s %'13ld %'13ld %'13ld %'13ld %'13ld" (
    str s.name
    ∷ num s.blocksize
    ∷ num s.total_bytes
    ∷ num s.total_read_bytes
    ∷ num s.total_written_bytes
    ∷ num s.total_transfers
    ∷ [])

-- The loop over `delta`, with the count of lines.
unfoldable pub print_all : Map String DiskStats → Console × ℕ → Console × ℕ
print_all [] (c, count) = (c, count)
print_all ((_, s) ∷ m) (c, count) = print_all m (print_stats s c, count + 1)

module _ ⦃env : Env⦄ where
  unfoldable pub header : Console → Console
  header = inverseln "  %-16s %13s %13s %13s %13s %13s" (
      str "[D]ISK ACTIVITY"
      ∷ str "Block Size"
      ∷ str "Total Bytes"
      ∷ str "Read Bytes"
      ∷ str "Write Bytes"
      ∷ str "Transfers"
      ∷ [])

  -- `Disk::print`, with the number of lines that it returns.
  unfoldable pub print_disk : Bool → Options → Disk → Console → Console × ℕ
  print_disk blank o d c =
      end_section blank
        (if o.condense_disk then (header c, 1) else print_all d.sampler.delta (header c, 1))
