-- ===== src/Disk/Devices.antt =====
-- macos/Disk.cpp: the table of drives.
use cctop.Prelude.{
  ◌&&◌, ℕ, ◌+◌, ◌≤◌, ◌<◌, ◌≡◌, refl, ◌∙◌, String, Bool, false, Option, none, some, List, [], ◌∷◌,
  ◌++◌, arith, length, length-append, ltb, if◌then◌else◌, Bool-cases, inl, inr, ltb→lt, ap, ◌-◌,
  sym,
}
use cctop.Map.{string_key, str_less}
use cctop.Sort.{insert, sort, length-sort}
use cctop.Console.{Console}
use cctop.Console.Session.{Outcome, running, exited, abort, leave}
use cctop.Disk.{
  Drive, Media, Properties, max_drives, new_entry, record_device, record_drives, record_drivelist,
  sort_drives, remove_named, remove_drive,
}

-- What holds of a result if the program is still running.
abbrev pub IfRunning {ℓ} : {A : Type ℓ} → (A → Type 0) → Outcome A → Type 0
IfRunning P (running a) = P a
IfRunning P (exited _ _) = Unit

pub length-snoc : (d : Drive) (ds : List Drive) → length (ds ++ d ∷ []) ≡ length ds + 1
length-snoc d ds = length-append ds (d ∷ [])

-- A drive that is kept is one more entry; one that is not changes nothing.
record_device-length :
    (m : Media) (ds : List Drive) (con : Console)
    → IfRunning (λ r. length r.1 ≤ length ds + 1) (record_device m ds con)
unfolding record_device new_entry abort leave
record_device-length m ds con = grind (arith, length-snoc)

abbrev pub Fits : List Drive → Type 0
Fits ds = length ds ≤ max_drives

-- With room for one more entry.
room_for :
    (ds : List Drive) (r : Outcome (Bool × List Drive))
    → length ds < max_drives
    → IfRunning (λ r. length r.1 ≤ length ds + 1) r
    → IfRunning (λ r. Fits r.1) r
room_for ds (running r) room h = omega arith
room_for ds (exited s c) room h = tt

record_next-Fits :
    (ms : List Media) (r : Outcome (Bool × List Drive)) (con : Console)
    → IfRunning (λ r. Fits r.1) r
    → ((ds : List Drive) → Fits ds → IfRunning Fits (record_drives ms ds con))
    → IfRunning Fits (elim r [ running r ↦ record_drives ms r.1 con | exited s c ↦ exited s c ])
record_next-Fits ms (running r) con h k = k r.1 h
record_next-Fits ms (exited s c) con h k = tt

pub record_drives-Fits :
    (ms : List Media) (ds : List Drive) (con : Console)
    → Fits ds
    → IfRunning Fits (record_drives ms ds con)
unfolding record_drives
record_drives-Fits [] ds con h = h
record_drives-Fits (m ∷ ms) ds con h =
    record_next-Fits ms _ con
      (elim (Bool-cases (ltb (length ds) max_drives)) [
        | inl room ↦ rw room (
            room_for ds (record_device m ds con) (ltb→lt (length ds) max_drives room)
              (record_device-length m ds con))
        | inr full ↦ rw full h
      ])
      (λ ds' h'. record_drives-Fits ms ds' con h')

-- How many entries have a name.
unfoldable pub count_name : String → List Drive → ℕ
count_name k [] = 0
count_name k (d ∷ ds) = (if string_key.eq k d.name then 1 else 0) + count_name k ds

count_name-insert :
    (before : Drive → Drive → Bool) (k : String) (d : Drive) (ds : List Drive)
    → count_name k (insert before d ds) ≡ count_name k (d ∷ ds)
unfolding insert count_name
count_name-insert before k d [] = refl
count_name-insert before k d (e ∷ ds) = ground (arith, count_name-insert before k d ds)

count_name-sort :
    (before : Drive → Drive → Bool) (k : String) (ds : List Drive)
    → count_name k (sort before ds) ≡ count_name k ds
unfolding sort count_name
count_name-sort before k [] = refl
count_name-sort before k (d ∷ ds) =
    omega (arith, count_name-insert before k d (sort before ds), count_name-sort before k ds)

abbrev Removes : String → List Drive → Option (List Drive) → Type 0
Removes name ds none = count_name name ds ≡ 0
Removes name ds (some ds') =
    (k : String) → count_name k ds ≡ (if string_key.eq k name then 1 else 0) + count_name k ds'

Removes-next :
    (name : String) (d : Drive) (ds : List Drive) (r : Option (List Drive))
    → string_key.eq name d.name ≡ false
    → Removes name ds r
    → Removes name (d ∷ ds) (elim r [ none ↦ none | some ds' ↦ some (d ∷ ds') ])
unfolding count_name
Removes-next name d ds none other h = rw (other, h) refl
Removes-next name d ds (some ds') other h = λ k. omega (arith, h k)

remove_named_lem : (name : String) (ds : List Drive) → Removes name ds (remove_named name ds)
unfolding remove_named count_name
remove_named_lem name [] = refl
remove_named_lem name (d ∷ ds) = elim (Bool-cases (string_key.eq name d.name)) [
  | inl same ↦ rw same (λ k.
      ap (λ n. (if string_key.eq k n then 1 else 0) + count_name k ds)
        (sym ((string_key.eq_iff name d.name).0 same)))
  | inr other ↦
      rw other (Removes-next name d ds (remove_named name ds) other (remove_named_lem name ds))
]

sorted-Fits :
    (r : Outcome (List Drive))
    → IfRunning Fits r
    → IfRunning Fits (elim r [ running ds ↦ running (sort_drives ds) | exited s c ↦ exited s c ])
unfolding sort_drives
sorted-Fits (running ds) h = rw (length-sort (λ a b. str_less a.name b.name) ds) h
sorted-Fits (exited s c) h = tt

-- At most `MAX_DRIVES` entries are recorded.
record_drivelist-Fits :
    (ms : List Media) (con : Console) → IfRunning Fits (record_drivelist ms [] con)
unfolding record_drivelist
record_drivelist-Fits ms con = sorted-Fits _ (record_drives-Fits ms [] con (omega arith))

removed_counts :
    (name k : String) (ds : List Drive) (r : Option (List Drive))
    → Removes name ds r
    → count_name k (elim r [ none ↦ ds | some ds' ↦ sort_drives ds' ])
      ≡ count_name k ds - (if string_key.eq k name then 1 else 0)
unfolding sort_drives
removed_counts name k ds none h = elim (Bool-cases (string_key.eq k name)) [
  | inl same ↦ rw same (rw ((string_key.eq_iff k name).0 same, h) refl)
  | inr other ↦ rw other (omega arith)
]
removed_counts name k ds (some ds') h =
    count_name-sort (λ a b. str_less a.name b.name) k ds' ∙ omega (arith, h k)

-- `remove_drivelist` for a drive that has a name: if the name fits the buffer, it takes out one entry
-- of that name, if there is one, and no other entry; if not, it takes out none.
pub remove_drive_counts :
    (m : Media) (p : Properties) (name k : String) (ds : List Drive)
    → m.properties ≡ some p
    → p.name ≡ some name
    → count_name k (remove_drive m ds)
      ≡ count_name k ds - (if p.converted && string_key.eq k name then 1 else 0)
unfolding remove_drive
remove_drive_counts m p name k ds h h' = elim (Bool-cases p.converted) [
  | inl fits ↦
      rw (h, h')
        (rw fits (removed_counts name k ds (remove_named name ds) (remove_named_lem name ds)))
  | inr long ↦ rw (h, h') (rw long (omega arith))
]
