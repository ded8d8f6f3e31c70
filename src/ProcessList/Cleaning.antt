-- ===== src/ProcessList/Cleaning.antt =====
-- macos/ProcessList.cpp: which processes an update and the display after it keep.
use cctop.Prelude.{
  ℕ, Bool, false, not, Option, none, some, List, [], ◌∷◌, ◌≡◌, refl, ap, ◌∙◌, arith, ◌==◌, ==_iff,
  if◌then◌else◌, ◌||◌,
}
use cctop.Map.{Map, nat_key, lookup, erase, Distinct}
use cctop.Map.Laws.{lookup-erase, erase-Distinct}
use cctop.ProcessList.{to_remove_of, remove_all}
use cctop.ProcessList.Entry.{Process}

-- Each process stands under its pid.
abbrev pub Filed : Map ℕ Process → Type 0
Filed [] = Unit
Filed ((k, p) ∷ m) = (p.pid ≡ k) × Filed m

-- Whether a pid is one of the processes.
abbrev pub has_pid : ℕ → List Process → Bool
has_pid k [] = false
has_pid k (p ∷ ps) = (p.pid == k) || has_pid k ps

-- A process that the last update has seen.
abbrev pub if_seen : ℕ → Option Process → Option Process
if_seen touched none = none
if_seen touched (some p) = if p.touched == touched then some p else none

lookup-remove_all :
    (k : ℕ) (ps : List Process) (m : Map ℕ Process)
    → Distinct m
    → lookup k (remove_all ps m) ≡ (if has_pid k ps then none else lookup k m)
unfolding remove_all
lookup-remove_all k [] m d = refl
lookup-remove_all k (p ∷ ps) m d = ground (
  arith,
  lookup-remove_all k ps (erase p.pid m) (erase-Distinct p.pid m d),
  lookup-erase p.pid k m d,
)

abbrev unseen : ℕ → Option Process → Bool
unseen touched none = false
unseen touched (some p) = not (p.touched == touched)

-- The first loop of `print` picks an entry for removal just if it has not been seen.
has_pid-to_remove :
    (k touched : ℕ) (m : Map ℕ Process)
    → Distinct m
    → Filed m
    → has_pid k (to_remove_of touched m) ≡ unseen touched (lookup k m)
unfolding to_remove_of lookup
has_pid-to_remove k touched [] d f = refl
has_pid-to_remove k touched ((j, p) ∷ m) (new, d) (e, f) = ground (
  arith,
  has_pid-to_remove k touched m d f,
  has_pid-to_remove j touched m d f,
  e,
  new,
  ==_iff j k,
  ==_iff p.pid k,
  ==_iff p.touched touched,
  ap (unseen touched) new,
)

if_seen_lem :
    (touched : ℕ) (o : Option Process) → (if unseen touched o then none else o) ≡ if_seen touched o
if_seen_lem touched none = refl
if_seen_lem touched (some p) = ground arith

-- The display removes just the processes that the last update has not seen.
pub remove_all_unseen :
    (k touched : ℕ) (m : Map ℕ Process)
    → Distinct m
    → Filed m
    → lookup k (remove_all (to_remove_of touched m) m) ≡ if_seen touched (lookup k m)
remove_all_unseen k touched m d f =
    lookup-remove_all k (to_remove_of touched m) m d
    ∙ rw (has_pid-to_remove k touched m d f) (if_seen_lem touched (lookup k m))
