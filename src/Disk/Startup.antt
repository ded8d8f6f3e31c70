-- ===== src/Disk/Startup.antt =====
-- macos/Disk.cpp: the constructor.
use cctop.Disk.Devices.{length-snoc}
use cctop.Sampler.{copy}
use cctop.Prelude.{
  ℕ, zero, suc, refl, true, ◌&&◌, ◌||◌, if◌then◌else◌, ◌+◌, ◌≡◌, Bool, false, Option, none, some,
  List, [], ◌∷◌, length, ltb, arith,
}
use cctop.Console.{Console, call}
use cctop.Console.Session.{Outcome, running, exited, abort, leave, cleanup}
use cctop.Console.Ending.{endwins}
use cctop.Map.{string_key}
use cctop.Sampler.Interval
use cctop.Sampler.Interval.{fresh-IsValid}
use cctop.Disk.{
  Disk, Drive, Media, Registry, max_drives, record_device, new_entry, record_drives, Properties,
  record_drivelist, sort_drives, remove_terminated, record_all_devices, read, start,
}
use cctop.Disk.Readings.{read_drives-IsReading}
use cctop.Disk.Stats.{disk_stat}

-- A drive for which the constructor is to fail: it has no parent, or its parent is a driver of block
-- storage and it lacks its properties, its name or its block size.
abbrev lacks : Option Properties → Bool
lacks none = true
lacks (some p) = elim p.name [
  | none ↦ true
  | some _ ↦ elim p.blocksize [ none ↦ true | some _ ↦ false ]
]

abbrev is_broken : Media → Bool
is_broken m = elim m.parent [ none ↦ true | some p ↦ p.is_block_storage && lacks m.properties ]

abbrev is_kept : Media → Bool
is_kept m = elim m.parent [ none ↦ false | some p ↦ p.is_block_storage ]

-- Whether one of the drives is broken, as long as the table has room: no drive is looked at once it is
-- full.
abbrev pub any_broken : ℕ → List Media → Bool
any_broken zero ms = false
any_broken (suc room) [] = false
any_broken (suc room) (m ∷ ms) = is_broken m || any_broken (if is_kept m then room else suc room) ms

-- The program has left just if this is so, with status 1 and one `endwin` more.
abbrev Exits {ℓ} : {A : Type ℓ} → Bool → Console → Outcome A → Type 0
Exits fails c (running a) = fails ≡ false
Exits fails c (exited s d) = (fails ≡ true) × (s ≡ 1) × (endwins d.calls ≡ endwins c.calls + 1)

-- A drive that is kept takes an entry.
abbrev Sized : Media → List Drive → Outcome (Bool × List Drive) → Type 0
Sized m ds (running r) = length r.1 ≡ length ds + (if is_kept m then 1 else 0)
Sized m ds (exited s d) = Unit

module _ (con : Console) (session : con.aborting ≡ false) where
  record_device-Exits :
      (m : Media) (ds : List Drive) → Exits (is_broken m) con (record_device m ds con)
  unfolding record_device new_entry abort leave cleanup call endwins
  record_device-Exits m ds = ground arith

  record_device-Sized : (m : Media) (ds : List Drive) → Sized m ds (record_device m ds con)
  unfolding record_device new_entry abort leave
  record_device-Sized m ds = grind (arith, length-snoc)

  next-Exits :
      (m : Media) (ms : List Media) (ds : List Drive) (room : ℕ) (r : Outcome (Bool × List Drive))
      → length ds + suc room ≡ max_drives
      → Exits (is_broken m) con r
      → Sized m ds r
      → ((k : ℕ) (ds' : List Drive)
          → length ds' + k ≡ max_drives
          → Exits (any_broken k ms) con (record_drives ms ds' con))
      → Exits
          (any_broken (suc room) (m ∷ ms))
          con
          (elim r [ running r ↦ record_drives ms r.1 con | exited s c ↦ exited s c ])
  next-Exits m ms ds room (running r) e h z k =
      rw h (k (if is_kept m then room else suc room) r.1 (ground (arith, z, e)))
  next-Exits m ms ds room (exited s c) e h z k = ground (arith, h)

  -- Once the table is full no drive is looked at.
  full-Exits :
      (ms : List Media) (ds : List Drive)
      → length ds ≡ max_drives
      → Exits false con (record_drives ms ds con)
  unfolding record_drives
  full-Exits [] ds h = refl
  full-Exits (m ∷ ms) ds h =
      let full : ltb (length ds) max_drives ≡ false = rw h refl in
      rw (full, record_drives) (full-Exits ms ds h)

  record_drives-Exits :
      (ms : List Media) (room : ℕ) (ds : List Drive)
      → length ds + room ≡ max_drives
      → Exits (any_broken room ms) con (record_drives ms ds con)
  unfolding record_drives
  record_drives-Exits ms zero ds h = full-Exits ms ds (omega (arith, h))
  record_drives-Exits [] (suc room) ds h = refl
  record_drives-Exits (m ∷ ms) (suc room) ds h =
      let open_table : ltb (length ds) max_drives ≡ true = ground (arith, h) in
      rw (open_table, record_drives)
        (next-Exits m ms ds room (record_device m ds con) h (record_device-Exits m ds)
          (record_device-Sized m ds) (λ k ds' e. record_drives-Exits ms k ds' e))

-- When the constructor is to fail: one of the two notifications cannot be added, or a drive is broken.
abbrev pub fails : (found removed : Option (List Media)) → Bool
fails none removed = true
fails (some ms) none = true
fails (some ms) (some _) = any_broken max_drives ms

module _ (con : Console) (session : con.aborting ≡ false) where
  -- What is sorted, and goes on with the drives that have terminated.
  table-Exits :
      (ms : List Media) (r : Outcome (List Drive)) (removed : Option (List Media))
      → Exits (any_broken max_drives ms) con r
      → Exits
          (fails (some ms) removed)
          con
          (elim (elim r as (λ _. Outcome (List Drive)) [
            | running ds ↦ running (sort_drives ds)
            | exited s c ↦ exited s c
          ]) [ exited s c ↦ exited s c | running ds ↦ remove_terminated removed ds con ])
  unfolding remove_terminated abort leave cleanup call endwins
  table-Exits ms (running ds) none h = ground arith
  table-Exits ms (running ds) (some _) h = h
  table-Exits ms (exited s c) none (_, status, once) = (refl, status, once)
  table-Exits ms (exited s c) (some _) h = h

  record_all_devices-Exits :
      (found removed : Option (List Media))
      → Exits (fails found removed) con (record_all_devices found removed [] con)
  unfolding record_all_devices record_drivelist abort leave cleanup call endwins
  record_all_devices-Exits none removed = ground arith
  record_all_devices-Exits (some ms) removed =
      table-Exits ms (record_drives ms [] con) removed
        (record_drives-Exits con session ms max_drives [] refl)

-- The constructor leaves a state that can be updated just if it is not to fail, or else the program.
abbrev pub Started : Bool → Console → Outcome Disk → Type 0
Started failed con (running d) = (failed ≡ false) × Interval.IsValid d.sampler
Started failed con (exited s c) =
    (failed ≡ true) × (s ≡ 1) × (endwins c.calls ≡ endwins con.calls + 1)

read-Started :
    (failed : Bool) (registry : Registry) (con : Console) (r : Outcome (List Drive))
    → Exits failed con r
    → Started failed con (elim r [
      | exited s c ↦ exited s c
      | running devices ↦
          let current = read registry devices [] in
          running (record {
            devices = devices;
            sampler = record { last = copy [] current; current = current; delta = copy [] current };
          })
    ])
read-Started failed registry con (running ds) h =
    let r = read_drives-IsReading registry ds [] tt tt in
    (h, fresh-IsValid (read registry ds []) r.named r.distinct)
read-Started failed registry con (exited s c) h = h

-- Unless the console has been cleaned up before: the constructor leaves the program, with status 1 and
-- one `endwin` more, just if a notification cannot be added, or if a drive that is looked at while the
-- table has room has no parent, or lacks its properties, its name or its block size under a driver
-- of block storage. In all other cases it leaves a state that can be updated.
pub start-Started :
    (found removed : Option (List Media)) (registry : Registry) (con : Console)
    → con.aborting ≡ false
    → Started (fails found removed) con (start found removed registry con)
unfolding start
start-Started found removed registry con h =
    read-Started (fails found removed) registry con _ (record_all_devices-Exits con h found removed)
