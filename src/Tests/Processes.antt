-- ===== src/Tests/Processes.antt =====
-- Theorems on the processes at concrete inputs.
use cctop.ProcessList.Named.{names_shown, name_of, names_uncached}
use cctop.Prelude.{map}
use cctop.Prelude.Words.{sub64, add64}
use cctop.ProcessList.Times.{Finds, update_measures}
use cctop.Console.Output.{end_section}
use cctop.ProcessList.Shown.{seen, shown_of, each, print_processes_eq}
use mathlib.Core.List.{Perm}
use cctop.Sort.{Ordered}
use cctop.Prelude.{
  ℕ, ◌+◌, ◌≤◌, ◌≡◌, refl, true, false, none, some, List, [], ◌∷◌, arith, if◌then◌else◌, length,
  take, ltb,
}
use cctop.Prelude.Int.{pos, pos_part}
use cctop.Terminal.{lit, div, num, of_u64}
use cctop.Options.{defaults}
use cctop.Map.{Map, nat_key, lookup}
use cctop.ProcessList.Cleaning.{if_seen}
use cctop.Console.{printed, println}
use cctop.ProcessList.{ProcessList, Listed, update, lines_left, header, print_processes, sorted_of}
use cctop.ProcessList.Entry.{BsdInfo, TaskInfo, Process}
use cctop.ProcessList.Seen
use cctop.ProcessList.Seen.{cleaned, is_some, last_answer, update_sees}
use cctop.ProcessList.Users.{
  Accounts, Caches, Call, of_user, of_group, after, groupname, groupname_once,
}
use cctop.Tests.Samples.{sample_env, sample_console, sample_names, lit_lt, lit_lt_asym}
use cctop.ProcessList.Fits.{print_processes_fits}
use cctop.Console.{cursor_row}

abbrev pub sample_accounts : Accounts
sample_accounts = record {
  getpwuid = λ uid. some "root";
  getgrgid = λ gid. some "wheel";
  decimal = λ n. "0";
}

abbrev pub no_caches : Caches
no_caches = record { uids = []; gids = [] }

no_group : lookup 0 no_caches.gids ≡ none
unfolding lookup
no_group = refl

abbrev sample_calls : List Call
sample_calls = of_user sample_accounts 5 ∷ of_group sample_accounts 7 ∷ []

groupname_once_example :
    let (first, c) = groupname sample_accounts 0 no_caches in
    (first ≡ "wheel") × ((groupname sample_accounts 0 (after sample_calls c)).0 ≡ "0")
groupname_once_example =
    groupname_once sample_accounts sample_accounts 0 no_caches "wheel" sample_calls no_group refl

abbrev sample_bsd : BsdInfo
sample_bsd = record {
  pbi_flags = 0;
  pbi_status = 0;
  pbi_xstatus = 0;
  pbi_pid = 4;
  pbi_ppid = 0;
  pbi_uid = 0;
  pbi_gid = 0;
  pbi_ruid = 501;
  pbi_rgid = 0;
  pbi_svuid = 0;
  pbi_svgid = 0;
  pbi_comm = "";
  pbi_name = "cctop";
  pbi_nfiles = 0;
  pbi_pgid = 0;
  pbi_pjobc = 0;
  e_tdev = 0;
  e_tpgid = 0;
  pbi_start_tvsec = 0;
  pbi_start_tvusec = 0;
  pbi_nice = pos 0;
}

abbrev sample_task : TaskInfo
sample_task = record {
  pti_virtual_size = 0;
  pti_resident_size = 0;
  pti_total_user = 10;
  pti_total_system = 0;
  pti_threads_user = 0;
  pti_threads_system = 0;
  pti_policy = pos 0;
  pti_faults = pos 0;
  pti_pageins = pos 0;
  pti_cow_faults = pos 0;
  pti_messages_sent = pos 0;
  pti_messages_received = pos 0;
  pti_syscalls_mach = pos 0;
  pti_syscalls_unix = pos 0;
  pti_csw = pos 0;
  pti_threadnum = pos 0;
  pti_numrunning = pos 0;
  pti_priority = pos 0;
}

-- A process that is found, and one that is gone.
abbrev pub sample_listed : List Listed
sample_listed =
    record { pid = 4; bsd = some sample_bsd; task = sample_task }
    ∷ record { pid = 5; bsd = none; task = sample_task }
    ∷ []

abbrev pub no_processes : ProcessList
no_processes = record { touched = 0; list = [] }

pub no_processes-IsValid : Seen.IsValid 0 []
unfolding lookup
no_processes-IsValid = record {
  distinct = tt;
  filed = λ k p h. ground (arith, h);
  touched_le = λ k p h. ground (arith, h);
}

update_sees_example :
    let l' = update 100 sample_listed no_processes in
    Seen.IsValid l'.touched (cleaned l')
    × ((k : ℕ) → is_some (lookup k (cleaned l')) ≡ last_answer k sample_listed false)
update_sees_example =
    update_sees 100 sample_listed no_processes (refl, (tt, tt)) no_processes-IsValid

-- The list after an update.
abbrev some_processes : ProcessList
some_processes = update 100 sample_listed no_processes

print_processes_fits_example :
    let (d, n) =
      (print_processes sample_accounts true defaults some_processes no_caches sample_console).1.1 in
    (printed d ≡ printed sample_console + n)
    × (n
        ≡ 2 + shown_of false 36 (length (sorted_of some_processes.touched some_processes.list)) + 1)
    × (12 + n ≤ 50 + 1 + 1)
unfolding cursor_row
print_processes_fits_example =
    print_processes_fits sample_accounts true defaults some_processes no_caches sample_console
      (omega arith)

abbrev later_task : TaskInfo
later_task = record sample_task { pti_total_user = 25; pti_total_system = 5 }

-- Process 4 is listed once and found, now and with more time used.
abbrev finds_with :
    (task : TaskInfo)
    → Finds 4
        (record { pid = 4; bsd = some sample_bsd; task = task }
          ∷ record { pid = 5; bsd = none; task = sample_task }
          ∷ [])
        task
finds_with task = record {
  before = [];
  after = record { pid = 5; bsd = none; task = sample_task } ∷ [];
  entry = record { pid = 4; bsd = some sample_bsd; task = task };
  proc = sample_bsd;
  listed = refl;
  same_pid = refl;
  found = refl;
  same_task = refl;
  once_before = tt;
  once_after = (refl, tt);
}

abbrev later_listed : List Listed
later_listed =
    record { pid = 4; bsd = some sample_bsd; task = later_task }
    ∷ record { pid = 5; bsd = none; task = sample_task }
    ∷ []

update_measures_example :
    (q : Process) × (lookup 4
        (update 200 later_listed (record some_processes { list = cleaned some_processes })).list
      ≡ some q)
    × (q.delta_user ≡ sub64 25 10)
    × (q.delta_system ≡ sub64 5 0)
    × (q.delta_cpu ≡ add64 q.delta_system q.delta_user)
    × (q.pct_cpu ≡ (if ltb 0 200 then div (of_u64 q.delta_cpu) (of_u64 200) else lit 0 0))
update_measures_example =
    update_measures 100 200 4 sample_listed later_listed sample_task later_task no_processes
      (refl, (tt, tt)) no_processes-IsValid (finds_with sample_task) (finds_with later_task)

print_processes_eq_example :
    let start = lines_left (header sample_console) in
    (sorted : List Process) × (list : Map ℕ Process) × Ordered
      (λ (a b : Process). lit_lt b.pct_cpu a.pct_cpu)
      sorted
    × Perm sorted (seen some_processes)
    × ((pid : ℕ)
        → lookup pid list ≡ if_seen some_processes.touched (lookup pid some_processes.list))
    × (let k = shown_of false (pos_part start.1) (length sorted) in
        let shown = each sample_accounts (take k sorted) (no_caches, start.0) in
        print_processes sample_accounts true defaults some_processes no_caches sample_console ≡ (
          record some_processes { list = list },
          (
            shown.0,
            end_section true (println "  %ld processes" (num (length sorted) ∷ []) shown.1, 2 + k),
          ),
        ))
print_processes_eq_example =
    print_processes_eq sample_accounts true defaults some_processes no_caches sample_console
      (Seen.update-IsValid 100 sample_listed no_processes (refl, (tt, tt)) no_processes-IsValid)
      lit_lt_asym

names_uncached_example :
    names_shown sample_accounts ((501, 20) ∷ (0, 0) ∷ (501, 20) ∷ []) no_caches
    ≡ map (λ (p : ℕ × ℕ). name_of sample_accounts p.0) ((501, 20) ∷ (0, 0) ∷ (501, 20) ∷ [])
names_uncached_example = names_uncached sample_accounts ((501, 20) ∷ (0, 0) ∷ (501, 20) ∷ [])
