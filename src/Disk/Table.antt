-- ===== src/Disk/Table.antt =====
-- macos/Disk.cpp: the table of drives over the life of the program.
use cctop.Prelude.{
  Bool, true, false, if◌then◌else◌, ◌≤◌, ◌≡◌, Option, none, some, List, [], ◌∷◌, arith, length, inl,
  inr, Option-cases, Bool-cases, String,
}
use std.Path.{subst}
use cctop.Map.{str_less, string_key}
use cctop.Map.Order.{str_less_asym}
use cctop.Sort.{Ordered, Ordered-sort, length-sort}
use cctop.Console.{Console}
use cctop.Console.Session.{Outcome, running, exited, abort, leave}
use cctop.Disk.{
  Drive, Media, record_drivelist, sort_drives, remove_named, remove_drive, remove_drivelist,
  remove_terminated, record_all_devices,
}
use cctop.Disk.Devices.{Fits, IfRunning, record_drives-Fits}

-- In the order of the names, and no more entries than the array has.
abbrev pub IsTable : List Drive → Type 0
IsTable ds = Ordered (λ (a b : Drive). str_less a.name b.name) ds × Fits ds

sort_drives-IsTable : (ds : List Drive) → Fits ds → IsTable (sort_drives ds)
unfolding sort_drives
sort_drives-IsTable ds h = (
  Ordered-sort _ (λ a b. str_less_asym a.name b.name) ds,
  rw (length-sort (λ a b. str_less a.name b.name) ds) h,
)

-- The table as the program makes it, and as the notifications of IOKit change it: drives that have
-- appeared are recorded, drives that have terminated are removed.
pub data Tabled : List Drive → Type 0 where
  made :
      (found removed : Option (List Media)) (con : Console) {ds : List Drive}
      → record_all_devices found removed [] con ≡ running ds
      → Tabled ds
  appeared :
      (ms : List Media) (con : Console) {ds ds' : List Drive}
      → Tabled ds
      → record_drivelist ms ds con ≡ running ds'
      → Tabled ds'
  terminated : (ms : List Media) {ds : List Drive} → Tabled ds → Tabled (remove_drivelist ms ds)

sorted-IsTable :
    (r : Outcome (List Drive))
    → IfRunning Fits r
    → IfRunning IsTable (elim r [ running ds ↦ running (sort_drives ds) | exited s c ↦ exited s c ])
sorted-IsTable (running ds) h = sort_drives-IsTable ds h
sorted-IsTable (exited s c) h = tt

record_drivelist-IsTable :
    (ms : List Media) (ds : List Drive) (con : Console)
    → Fits ds
    → IfRunning IsTable (record_drivelist ms ds con)
unfolding record_drivelist
record_drivelist-IsTable ms ds con h = sorted-IsTable _ (record_drives-Fits ms ds con h)

abbrev Shortens : List Drive → Option (List Drive) → Type 0
Shortens ds none = Unit
Shortens ds (some ds') = length ds' ≤ length ds

Shortens-next :
    (d : Drive) (ds : List Drive) (r : Option (List Drive))
    → Shortens ds r
    → Shortens (d ∷ ds) (elim r [ none ↦ none | some ds' ↦ some (d ∷ ds') ])
Shortens-next d ds none h = tt
Shortens-next d ds (some ds') h = omega arith

remove_named-Shortens : (name : String) (ds : List Drive) → Shortens ds (remove_named name ds)
unfolding remove_named
remove_named-Shortens name [] = tt
remove_named-Shortens name (d ∷ ds) = elim (Bool-cases (string_key.eq name d.name)) [
  | inl same ↦ rw same (omega arith)
  | inr other ↦ rw other (Shortens-next d ds (remove_named name ds) (remove_named-Shortens name ds))
]

removed-IsTable :
    (ds : List Drive) (r : Option (List Drive))
    → IsTable ds
    → Shortens ds r
    → IsTable (elim r [ none ↦ ds | some ds' ↦ sort_drives ds' ])
removed-IsTable ds none h k = h
removed-IsTable ds (some ds') h k = sort_drives-IsTable ds' (omega arith)

named-IsTable :
    (converted : Bool) (name : Option String) (ds : List Drive)
    → IsTable ds
    → IsTable (elim name [
      | none ↦ ds
      | some name ↦
          if converted
          then (elim (remove_named name ds) [ none ↦ ds | some ds' ↦ sort_drives ds' ])
          else ds
    ])
named-IsTable converted none ds h = h
named-IsTable false (some name) ds h = h
named-IsTable true (some name) ds h =
    removed-IsTable ds (remove_named name ds) h (remove_named-Shortens name ds)

remove_drive-IsTable : (m : Media) (ds : List Drive) → IsTable ds → IsTable (remove_drive m ds)
unfolding remove_drive
remove_drive-IsTable m ds h = elim (Option-cases m.properties) [
  | inl e ↦ rw (e, remove_drive) h
  | inr (p, e) ↦ rw (e, remove_drive) (named-IsTable p.converted p.name ds h)
]

remove_drivelist-IsTable :
    (ms : List Media) (ds : List Drive) → IsTable ds → IsTable (remove_drivelist ms ds)
unfolding remove_drivelist
remove_drivelist-IsTable [] ds h = h
remove_drivelist-IsTable (m ∷ ms) ds h =
    remove_drivelist-IsTable ms (remove_drive m ds) (remove_drive-IsTable m ds h)

remaining-IsTable :
    (removed : Option (List Media)) (r : Outcome (List Drive)) (con : Console)
    → IfRunning IsTable r
    → IfRunning IsTable
        (elim r [ exited s c ↦ exited s c | running ds ↦ remove_terminated removed ds con ])
unfolding remove_terminated abort leave
remaining-IsTable none (running ds) con h = tt
remaining-IsTable (some removed) (running ds) con h = remove_drivelist-IsTable removed ds h
remaining-IsTable removed (exited s c) con h = tt

record_all_devices-IsTable :
    (found removed : Option (List Media)) (con : Console)
    → IfRunning IsTable (record_all_devices found removed [] con)
unfolding record_all_devices abort leave
record_all_devices-IsTable none removed con = tt
record_all_devices-IsTable (some found) removed con =
    remaining-IsTable removed (record_drivelist found [] con) con
      (record_drivelist-IsTable found [] con (omega arith))

-- Whatever notifications have come after the table was made, its entries are in the order of their
-- names, and no more than `MAXDRIVES`.
pub Tabled-IsTable : (ds : List Drive) → Tabled ds → IsTable ds
Tabled-IsTable ds (made found removed con e) =
    subst (IfRunning IsTable) e (record_all_devices-IsTable found removed con)
Tabled-IsTable ds (appeared ms con {ds = old} t e) =
    subst (IfRunning IsTable) e (record_drivelist-IsTable ms old con (Tabled-IsTable old t).1)
Tabled-IsTable ds (terminated ms {ds = old} t) =
    remove_drivelist-IsTable ms old (Tabled-IsTable old t)
