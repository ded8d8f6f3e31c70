-- ===== src/ProcessList/Times.antt =====
-- macos/ProcessList.cpp: the time that a process is shown to have used.
use cctop.Prelude.{
  ℕ, suc, true, false, Option, none, some, List, [], ◌∷◌, ◌++◌, ◌≡◌, refl, ap, ◌∙◌, arith, ◌==◌,
  ==_iff, if◌then◌else◌, Option-cases, inl, inr, ltb,
}
use cctop.Prelude.Words.{sub64, add64}
use cctop.Terminal.{lit, of_u64, div}
use cctop.Map.{Map, nat_key, lookup, insert, Distinct}
use cctop.Map.Laws.{lookup-insert, insert-Distinct, lookup-erase, erase-Distinct}
use cctop.ProcessList.{ProcessList, Listed, known, update_one, update_all, update}
use cctop.ProcessList.Entry.{
  Process, BsdInfo, TaskInfo, new_process, fill, set_bsd, set_deltas, set_cpu, set_task,
  fill-touched,
}
use cctop.ProcessList.Cleaning.{if_seen, remove_all_unseen}
use cctop.ProcessList.Seen.{
  Filed-lookup, IsValid, Answers, cleaned, update-IsValid, cleaned-IsValid,
}

-- No entry of the list is for this pid.
abbrev pub Unlisted : ℕ → List Listed → Type 0
Unlisted k [] = Unit
Unlisted k (x ∷ xs) = ((x.pid == k) ≡ false) × Unlisted k xs

-- What the process of a pid is after a round for it.
abbrev filled : (touched ticks : ℕ) → BsdInfo → TaskInfo → Option Process → Process
filled touched ticks proc task none = fill touched ticks proc task new_process true
filled touched ticks proc task (some p) = fill touched ticks proc task p false

update_one-Distinct :
    (touched ticks : ℕ) (x : Listed) (m : Map ℕ Process)
    → Distinct m
    → Distinct (update_one touched ticks x m)
unfolding update_one
update_one-Distinct touched ticks x m d = elim (Option-cases x.bsd) [
  | inl e ↦ rw (e, update_one) (erase-Distinct x.pid m d)
  | inr (proc, e) ↦ rw (e, update_one) (insert-Distinct x.pid _ m d)
]

update_one-other :
    (touched ticks k : ℕ) (x : Listed) (m : Map ℕ Process)
    → (x.pid == k) ≡ false
    → Distinct m
    → lookup k (update_one touched ticks x m) ≡ lookup k m
unfolding update_one
update_one-other touched ticks k x m other d = elim (Option-cases x.bsd) [
  | inl e ↦ rw (e, update_one) (ground (arith, other, lookup-erase x.pid k m d))
  | inr (proc, e) ↦
      rw (e, update_one)
        (ground (
          arith,
          other,
          lookup-insert x.pid k (fill touched ticks proc x.task (known x.pid m).0 (known x.pid m).1)
              m,
        ))
]

lookup-inserted : (k : ℕ) (p : Process) (m : Map ℕ Process) → lookup k (insert k p m) ≡ some p
lookup-inserted k p m = ground (arith, lookup-insert k k p m, ==_iff k k)

update_one-same :
    (touched ticks : ℕ) (x : Listed) (proc : BsdInfo) (m : Map ℕ Process)
    → x.bsd ≡ some proc
    → lookup x.pid (update_one touched ticks x m)
      ≡ some (filled touched ticks proc x.task (lookup x.pid m))
unfolding update_one known
update_one-same touched ticks x proc m e = elim (Option-cases (lookup x.pid m)) [
  | inl new ↦ rw (e, update_one, known, new) (lookup-inserted x.pid _ m)
  | inr (p, old) ↦ rw (e, update_one, known, old) (lookup-inserted x.pid _ m)
]

update_all-other :
    (touched ticks k : ℕ) (xs : List Listed) (m : Map ℕ Process)
    → Unlisted k xs
    → Distinct m
    → lookup k (update_all touched ticks xs m) ≡ lookup k m
unfolding update_all
update_all-other touched ticks k [] m u d = refl
update_all-other touched ticks k (x ∷ xs) m (h, u) d =
    update_all-other touched ticks k xs (update_one touched ticks x m) u
      (update_one-Distinct touched ticks x m d)
    ∙ update_one-other touched ticks k x m h d

-- After an update that lists a pid once, and finds it.
update_all-listed :
    (touched ticks : ℕ) (before after : List Listed) (x : Listed) (proc : BsdInfo)
    (m : Map ℕ Process)
    → Unlisted x.pid before
    → Unlisted x.pid after
    → x.bsd ≡ some proc
    → Distinct m
    → lookup x.pid (update_all touched ticks (before ++ x ∷ after) m)
      ≡ some (filled touched ticks proc x.task (lookup x.pid m))
unfolding update_all
update_all-listed touched ticks [] after x proc m b a e d =
    update_all-other touched ticks x.pid after (update_one touched ticks x m) a
      (update_one-Distinct touched ticks x m d)
    ∙ update_one-same touched ticks x proc m e
update_all-listed touched ticks (y ∷ before) after x proc m (h, b) a e d =
    update_all-listed touched ticks before after x proc (update_one touched ticks y m) b a e
      (update_one-Distinct touched ticks y m d)
    ∙ ap (λ o. some (filled touched ticks proc x.task o))
        (update_one-other touched ticks x.pid y m h d)

-- A list of processes has a pid once, and libproc finds it, with these times.
pub record Finds (k : ℕ) (xs : List Listed) (task : TaskInfo) : Type 0 where
  pub before : List Listed
  pub after : List Listed
  pub entry : Listed
  pub proc : BsdInfo
  pub listed : xs ≡ before ++ entry ∷ after
  pub same_pid : entry.pid ≡ k
  pub found : entry.bsd ≡ some proc
  pub same_task : entry.task ≡ task
  pub once_before : Unlisted entry.pid before
  pub once_after : Unlisted entry.pid after

update_finds :
    (ticks k : ℕ) (xs : List Listed) (task : TaskInfo) (l : ProcessList) (f : Finds k xs task)
    → Distinct l.list
    → lookup k (update ticks xs l).list
      ≡ some (filled (suc l.touched) ticks f.proc task (lookup k l.list))
unfolding update
update_finds ticks k xs task l f d =
    let h =
      update_all-listed (suc l.touched) ticks f.before f.after f.entry f.proc l.list f.once_before
        f.once_after f.found d in
    rw (← f.same_pid, ← f.same_task, f.listed) h

filled-seen :
    (touched ticks : ℕ) (proc : BsdInfo) (task : TaskInfo) (o : Option Process)
    → if_seen touched (some (filled touched ticks proc task o))
      ≡ some (filled touched ticks proc task o)
filled-seen touched ticks proc task none =
    ground (arith, fill-touched touched ticks proc task new_process true, ==_iff touched touched)
filled-seen touched ticks proc task (some p) =
    ground (arith, fill-touched touched ticks proc task p false, ==_iff touched touched)

filled-totals :
    (touched ticks : ℕ) (proc : BsdInfo) (task : TaskInfo) (o : Option Process)
    → let p = filled touched ticks proc task o in
      (p.total_user ≡ task.pti_total_user) × (p.total_system ≡ task.pti_total_system)
unfolding fill set_task
filled-totals touched ticks proc task none = (refl, refl)
filled-totals touched ticks proc task (some p) = (refl, refl)

-- The display keeps a process that the update has found.
cleaned_finds :
    (ticks k : ℕ) (xs : List Listed) (t : TaskInfo) (l : ProcessList) (f : Finds k xs t)
    → Answers xs
    → IsValid l.touched l.list
    → lookup k (cleaned (update ticks xs l))
      ≡ some (filled (suc l.touched) ticks f.proc t (lookup k l.list))
unfolding update
cleaned_finds ticks k xs t l f a v =
    let v1 = update-IsValid ticks xs l a v in
    let l1 = update ticks xs l in
    remove_all_unseen k l1.touched l1.list v1.distinct (Filed-lookup l1.list v1.distinct v1.filed)
    ∙ ap (if_seen (suc l.touched)) (update_finds ticks k xs t l f v.distinct)
    ∙ filled-seen (suc l.touched) ticks f.proc t (lookup k l.list)

-- If two updates, with the display after the first, both list a process once and find it, then
-- the times that it has after the second are how far its counters have moved from the one to the
-- other, modulo 2^64, their sum is what it has used, and its share is the quotient by the ticks of
-- all cores, or 0 if there are none.
pub update_measures :
    (ticks1 ticks2 k : ℕ) (xs ys : List Listed) (t u : TaskInfo) (l : ProcessList)
    → Answers xs
    → IsValid l.touched l.list
    → Finds k xs t
    → Finds k ys u
    → let l1 = update ticks1 xs l in
      (q : Process) × (lookup k (update ticks2 ys (record l1 { list = cleaned l1 })).list ≡ some q)
      × (q.delta_user ≡ sub64 u.pti_total_user t.pti_total_user)
      × (q.delta_system ≡ sub64 u.pti_total_system t.pti_total_system)
      × (q.delta_cpu ≡ add64 q.delta_system q.delta_user)
      × (q.pct_cpu ≡ (if ltb 0 ticks2 then div (of_u64 q.delta_cpu) (of_u64 ticks2) else lit 0 0))
unfolding fill set_bsd set_deltas set_cpu set_task
update_measures ticks1 ticks2 k xs ys t u l a v f g =
    let l1 = update ticks1 xs l in
    let v1 = update-IsValid ticks1 xs l a v in
    let v2 = cleaned-IsValid l1 v1 in
    let p = filled (suc l.touched) ticks1 f.proc t (lookup k l.list) in
    let kept = cleaned_finds ticks1 k xs t l f a v in
    let second = update_finds ticks2 k ys u (record l1 { list = cleaned l1 }) g v2.distinct in
    let (user, system) = filled-totals (suc l.touched) ticks1 f.proc t (lookup k l.list) in
    (
      filled (suc l1.touched) ticks2 g.proc u (some p),
      second ∙ ap (λ o. some (filled (suc l1.touched) ticks2 g.proc u o)) kept,
      ap (sub64 u.pti_total_user) user,
      ap (sub64 u.pti_total_system) system,
      refl,
      refl,
    )
