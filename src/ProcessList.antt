-- ===== src/ProcessList.antt =====
-- macos/ProcessList.h and macos/ProcessList.cpp: class ProcessList. What libproc knows of the
-- processes is an argument, and so are the account databases.
pub mod Entry
pub mod Users
pub mod Cleaning
pub mod Seen
pub mod Times
pub mod Shown
pub mod Fits
pub mod Named
pub mod Rows
use package.text.Mathlib.Text.{◌==◌}
use cctop.Prelude.{
  ℕ, suc, ◌+◌, ◌-◌, String, Bool, true, false, not, Option, none, some, List, [], ◌∷◌, ◌▷◌, length,
  ltb, ◌==◌ as nat_eq, if◌then◌else◌,
}
use cctop.Prelude.Int.{ℤ, pos, neg_part, pos_part, sub_ℕ}
use cctop.Terminal.{Env, Arg, lit, mul, str, num, real}
use cctop.Map.{Map, nat_key, lookup, insert, erase}
use cctop.Sort.{sort}
use cctop.Options.{Options}
use cctop.Console.{Console, cursor_row, println}
use cctop.Console.Modes.{mode_bold}
use cctop.Console.Output.{inverseln, end_section}
use cctop.ProcessList.Users.{Accounts, Caches, username, groupname}
use cctop.ProcessList.Entry.{Process, BsdInfo, TaskInfo, new_process, fill}

-- What libproc answers for a pid; the second call leaves zeros if it fails.
pub record Listed : Type 0 where
  pub pid : ℕ
  pub bsd : Option BsdInfo
  pub task : TaskInfo

pub record ProcessList : Type 0 where
  pub touched : ℕ
  pub list : Map ℕ Process

-- The process of a round, and whether it is new.
unfoldable pub known : ℕ → Map ℕ Process → Process × Bool
known pid list = elim (lookup pid list) [ none ↦ (new_process, true) | some p ↦ (p, false) ]

-- A round of the loop of `update`. A process of which nothing is found is erased, also one that has
-- just been entered.
unfoldable pub update_one : (touched total_ticks : ℕ) → Listed → Map ℕ Process → Map ℕ Process
update_one touched total_ticks x list = elim x.bsd [
  | none ↦ erase x.pid list
  | some proc ↦
      let (p, is_new) = known x.pid list in
      insert x.pid (fill touched total_ticks proc x.task p is_new) list
]

unfoldable pub update_all : (touched total_ticks : ℕ) → List Listed → Map ℕ Process → Map ℕ Process
update_all touched total_ticks [] list = list
update_all touched total_ticks (x ∷ xs) list =
    update_all touched total_ticks xs (update_one touched total_ticks x list)

-- `update`, with `processor.total_ticks`.
unfoldable pub update : ℕ → List Listed → ProcessList → ProcessList
update total_ticks xs l = record {
  touched = suc l.touched;
  list = update_all (suc l.touched) total_ticks xs l.list;
}

-- The first loop of `print`: those that the last update has seen, and those that it has not.
unfoldable pub sorted_of : ℕ → Map ℕ Process → List Process
sorted_of touched [] = []
sorted_of touched ((_, p) ∷ m) =
    let rest = sorted_of touched m in if nat_eq p.touched touched then p ∷ rest else rest

unfoldable pub to_remove_of : ℕ → Map ℕ Process → List Process
to_remove_of touched [] = []
to_remove_of touched ((_, p) ∷ m) =
    let rest = to_remove_of touched m in if nat_eq p.touched touched then rest else p ∷ rest

-- The second loop.
unfoldable pub remove_all : List Process → Map ℕ Process → Map ℕ Process
remove_all [] m = m
remove_all (p ∷ ps) m = remove_all ps (erase p.pid m)

module _ ⦃env : Env⦄ where
  unfoldable pub cmp : Process → Process → Bool
  cmp a b = env.lt b.pct_cpu a.pct_cpu

module _ ⦃env : Env⦄ where
  unfoldable pub header : Console → Console
  header =
      inverseln " %6.6s %6.6s %-16.16s %-32.32s"
        (str "[P]ID" ∷ str "CPU%" ∷ str "USER" ∷ str "NAME" ∷ [])

  -- `console.height - console.cursor_row() - 2`
  unfoldable pub lines_left : Console → Console × ℤ
  lines_left con = let (con, row) = cursor_row con in (con, sub_ℕ con.height (row + 2))

-- `printed > lines`, where `lines` may be negative.
unfoldable pub is_full : ℕ → ℤ → Bool
is_full printed lines = ltb (pos_part lines) (printed + neg_part lines)

module _ ⦃env : Env⦄ (accounts : Accounts) where
  -- The line of a process; the name of its group is looked up and not shown.
  unfoldable pub print_process : Process → Caches × Console → Caches × Console
  print_process p (caches, con) =
      let (pass, caches) = username accounts p.ruid caches in
      let (grp, caches) = groupname accounts p.rgid caches in
      (
        caches,
        (if p.name == "cctop" then mode_bold true con else con)
            ▷ println " %6d %6.1f %-16.16s %-32.32s"
                (num p.pid ∷ real (mul p.pct_cpu (lit 1000 0)) ∷ str pass ∷ str p.name ∷ [])
            ▷ mode_bold false,
      )

  -- The loop over the sorted processes, with `printed` and the number of rounds.
  unfoldable pub print_list :
      Options → ℤ → ℕ → List Process → Caches × Console → ℕ × (Caches × Console)
  print_list o lines printed [] s = (0, s)
  print_list o lines printed (p ∷ ps) s =
      let s = print_process p s in
      let rest = print_list o lines (printed + 1) ps s in
      if o.condense_processes
      then (1, s)
      else if is_full (printed + 1) lines
      then (1, s)
      else (rest.0 + 1, rest.1)

  unfoldable pub print_processes :
      Bool → Options → ProcessList → Caches → Console → ProcessList × (Caches × (Console × ℕ))
  print_processes blank o l caches con =
      let sorted = sort cmp (sorted_of l.touched l.list) in
      let (con, lines) = lines_left (header con) in
      let (shown, (caches, con)) = print_list o lines 0 sorted (caches, con) in
      let con = println "  %ld processes" (num (length sorted) ∷ []) con in
      (
        record l { list = remove_all (to_remove_of l.touched l.list) l.list },
        (caches, end_section blank (con, 2 + shown)),
      )
