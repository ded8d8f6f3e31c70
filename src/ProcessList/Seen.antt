-- ===== src/ProcessList/Seen.antt =====
-- macos/ProcessList.cpp: an update and the display after it, over the life of the program.
use cctop.Console.{Console}
use cctop.Options.{Options}
use cctop.ProcessList.Users.{Accounts, Caches}
use cctop.Terminal.{Env}
use cctop.Prelude.{
  ℕ, suc, ◌≤◌, Bool, true, false, Option, none, some, List, [], ◌∷◌, ◌≡◌, refl, ap, ◌∙◌, arith,
  ◌==◌, ==_iff, Option-cases, inl, inr, if◌then◌else◌,
}
use cctop.Map.{Map, nat_key, lookup, erase, insert, Distinct}
use cctop.Map.Laws.{lookup-erase, erase-Distinct, lookup-insert, insert-Distinct}
use cctop.ProcessList.{
  ProcessList, Listed, known, update_one, update_all, update, to_remove_of, remove_all,
  print_processes,
}
use cctop.ProcessList.Cleaning.{Filed, if_seen, remove_all_unseen}
use cctop.ProcessList.Entry.{Process, BsdInfo, fill, fill-pid, fill-touched}

-- The processes stand under their pids, and the last update has the highest number.
pub record IsValid (touched : ℕ) (m : Map ℕ Process) : Type 0 where
  pub distinct : Distinct m
  pub filed : (k : ℕ) (p : Process) → lookup k m ≡ some p → p.pid ≡ k
  pub touched_le : (k : ℕ) (p : Process) → lookup k m ≡ some p → p.touched ≤ touched

-- libproc answers for the pid that it is asked for.
abbrev pub SamePid : Option BsdInfo → ℕ → Type 0
SamePid none pid = Unit
SamePid (some proc) pid = proc.pbi_pid ≡ pid

abbrev pub Answers : List Listed → Type 0
Answers [] = Unit
Answers (x ∷ xs) = SamePid x.bsd x.pid × Answers xs

abbrev pub is_some {ℓ} : {A : Type ℓ} → Option A → Bool
is_some none = false
is_some (some _) = true

-- What the last entry of a pid says, `b` if there is none.
unfoldable pub last_answer : ℕ → List Listed → Bool → Bool
last_answer k [] b = b
last_answer k (x ∷ xs) b = last_answer k xs (if x.pid == k then is_some x.bsd else b)

insert-IsValid :
    (touched pid : ℕ) (p : Process) (m : Map ℕ Process)
    → p.pid ≡ pid
    → p.touched ≤ touched
    → IsValid touched m
    → IsValid touched (insert pid p m)
insert-IsValid touched pid p m e t v = record {
  distinct = insert-Distinct pid p m v.distinct;
  filed = λ k q h. ground (arith, e, h, lookup-insert pid k p m, ==_iff pid k, v.filed k q);
  touched_le = λ k q h. ground (arith, t, h, lookup-insert pid k p m, v.touched_le k q);
}

erase-IsValid :
    (touched pid : ℕ) (m : Map ℕ Process) → IsValid touched m → IsValid touched (erase pid m)
erase-IsValid touched pid m v = record {
  distinct = erase-Distinct pid m v.distinct;
  filed = λ k q h. ground (arith, h, lookup-erase pid k m v.distinct, v.filed k q);
  touched_le = λ k q h. ground (arith, h, lookup-erase pid k m v.distinct, v.touched_le k q);
}

update_one-IsValid :
    (touched ticks : ℕ) (x : Listed) (m : Map ℕ Process)
    → SamePid x.bsd x.pid
    → IsValid touched m
    → IsValid touched (update_one touched ticks x m)
unfolding update_one
update_one-IsValid touched ticks x m s v = elim (Option-cases x.bsd) [
  | inl gone ↦ rw (gone, update_one) (erase-IsValid touched x.pid m v)
  | inr (proc, found) ↦
      let (p, is_new) = known x.pid m in
      rw (found, update_one)
        (insert-IsValid touched x.pid _ m
          (fill-pid touched ticks proc x.task p is_new ∙ rw found at s)
          (rw (fill-touched touched ticks proc x.task p is_new) (omega arith)) v)
]

update_all-IsValid :
    (touched ticks : ℕ) (xs : List Listed) (m : Map ℕ Process)
    → Answers xs
    → IsValid touched m
    → IsValid touched (update_all touched ticks xs m)
unfolding update_all
update_all-IsValid touched ticks [] m a v = v
update_all-IsValid touched ticks (x ∷ xs) m (s, a) v =
    update_all-IsValid touched ticks xs (update_one touched ticks x m) a
      (update_one-IsValid touched ticks x m s v)

-- Whether the list has a process that the last update has seen under the pid.
abbrev present : ℕ → ℕ → Map ℕ Process → Bool
present touched k m = is_some (if_seen touched (lookup k m))

present_filled :
    (touched ticks : ℕ) (proc : BsdInfo) (x : Listed) (p : Process) (is_new : Bool)
    → is_some (if_seen touched (some (fill touched ticks proc x.task p is_new))) ≡ true
present_filled touched ticks proc x p is_new =
    ground (arith, fill-touched touched ticks proc x.task p is_new)

present-update_one :
    (touched ticks k : ℕ) (x : Listed) (m : Map ℕ Process)
    → Distinct m
    → present touched k (update_one touched ticks x m)
      ≡ (if x.pid == k then is_some x.bsd else present touched k m)
unfolding update_one
present-update_one touched ticks k x m d = elim (Option-cases x.bsd) [
  | inl gone ↦ rw (gone, update_one) (ground (arith, lookup-erase x.pid k m d))
  | inr (proc, found) ↦
      let (p, is_new) = known x.pid m in
      rw (found, update_one)
        (ground (
          arith,
          lookup-insert x.pid k (fill touched ticks proc x.task p is_new) m,
          present_filled touched ticks proc x p is_new,
        ))
]

present-update_all :
    (touched ticks k : ℕ) (xs : List Listed) (m : Map ℕ Process)
    → Answers xs
    → IsValid touched m
    → present touched k (update_all touched ticks xs m) ≡ last_answer k xs (present touched k m)
unfolding update_all last_answer
present-update_all touched ticks k [] m a v = refl
present-update_all touched ticks k (x ∷ xs) m (s, a) v =
    present-update_all touched ticks k xs (update_one touched ticks x m) a
      (update_one-IsValid touched ticks x m s v)
    ∙ ap (last_answer k xs) (present-update_one touched ticks k x m v.distinct)

-- Before an update, no process has been seen by it.
not_present :
    (touched k : ℕ) (m : Map ℕ Process) → IsValid touched m → present (suc touched) k m ≡ false
not_present touched k m v = elim (Option-cases (lookup k m)) [
  | inl gone ↦ rw gone refl
  | inr (p, found) ↦ ground (arith, found, v.touched_le k p found)
]

weaken-IsValid : (touched : ℕ) (m : Map ℕ Process) → IsValid touched m → IsValid (suc touched) m
weaken-IsValid touched m v = record {
  distinct = v.distinct;
  filed = v.filed;
  touched_le = λ k p h. omega (arith, v.touched_le k p h);
}

pub Filed-lookup :
    (m : Map ℕ Process)
    → Distinct m
    → ((k : ℕ) (p : Process) → lookup k m ≡ some p → p.pid ≡ k)
    → Filed m
unfolding lookup
Filed-lookup [] d f = tt
Filed-lookup ((j, p) ∷ m) (new, d) f = (
  f j p (rw ((==_iff j j).1 refl) refl),
  Filed-lookup m d (λ k q h. f k q (ground (arith, new, h, ==_iff j k))),
)

remove_all-Distinct :
    (ps : List Process) (m : Map ℕ Process) → Distinct m → Distinct (remove_all ps m)
unfolding remove_all
remove_all-Distinct [] m d = d
remove_all-Distinct (p ∷ ps) m d = remove_all-Distinct ps (erase p.pid m) (erase-Distinct p.pid m d)

-- The list that `print` leaves.
abbrev pub cleaned : ProcessList → Map ℕ Process
cleaned l = remove_all (to_remove_of l.touched l.list) l.list

pub cleaned-IsValid : (l : ProcessList) → IsValid l.touched l.list → IsValid l.touched (cleaned l)
cleaned-IsValid l v =
    let at : (k : ℕ) → lookup k (cleaned l) ≡ if_seen l.touched (lookup k l.list) = λ k.
      remove_all_unseen k l.touched l.list v.distinct (Filed-lookup l.list v.distinct v.filed) in
    record {
      distinct = remove_all-Distinct (to_remove_of l.touched l.list) l.list v.distinct;
      filed = λ k p h. ground (arith, h, at k, v.filed k p);
      touched_le = λ k p h. ground (arith, h, at k, v.touched_le k p);
    }

pub update-IsValid :
    (total_ticks : ℕ) (xs : List Listed) (l : ProcessList)
    → Answers xs
    → IsValid l.touched l.list
    → IsValid (update total_ticks xs l).touched (update total_ticks xs l).list
unfolding update
update-IsValid total_ticks xs l a v =
    update_all-IsValid (suc l.touched) total_ticks xs l.list a (weaken-IsValid l.touched l.list v)

module _ ⦃env : Env⦄ where
  pub print_processes-IsValid :
      (accounts : Accounts) (blank : Bool) (o : Options) (l : ProcessList) (caches : Caches)
      (c : Console)
      → IsValid l.touched l.list
      → let l' = (print_processes accounts blank o l caches c).0 in IsValid l'.touched l'.list
  unfolding print_processes
  print_processes-IsValid accounts blank o l caches c v = cleaned-IsValid l v

-- From a valid state, and if libproc answers for the pids that it is asked for, an update and the
-- display after it keep the state valid, and then the list has a process just if libproc, in its
-- last answer for that pid, found it.
pub update_sees :
    (total_ticks : ℕ) (xs : List Listed) (l : ProcessList)
    → Answers xs
    → IsValid l.touched l.list
    → let l' = update total_ticks xs l in
      IsValid l'.touched (cleaned l')
      × ((k : ℕ) → is_some (lookup k (cleaned l')) ≡ last_answer k xs false)
unfolding update
update_sees total_ticks xs l a v =
    let v' =
      update_all-IsValid (suc l.touched) total_ticks xs l.list a
        (weaken-IsValid l.touched l.list v) in
    let l' = update total_ticks xs l in
    (
      cleaned-IsValid l' v',
      λ k.
          ap is_some (
            remove_all_unseen k l'.touched l'.list v'.distinct
              (Filed-lookup l'.list v'.distinct v'.filed))
          ∙ present-update_all (suc l.touched) total_ticks k xs l.list a
              (weaken-IsValid l.touched l.list v)
          ∙ ap (last_answer k xs) (not_present l.touched k l.list v),
    )
