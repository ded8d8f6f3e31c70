-- ===== src/ProcessList/Entry.antt =====
-- macos/ProcessList.h and macos/ProcessList.cpp: struct Process, and how a round of the update sets it.
use cctop.Prelude.{ℕ, refl, String, Bool, true, false, if◌then◌else◌, ltb, ◌▷◌, ◌≡◌}
use cctop.Prelude.Int.{ℤ, pos}
use cctop.Prelude.Words.{add64, sub64}
use cctop.Terminal.{Double, lit, of_u64, div}

-- `touched` starts at 0 and is only set to values of the counter of the list, so it is a number.
pub record Process : Type 0 where
  pub pid : ℕ
  pub delta_cpu : ℕ
  pub pct_cpu : Double
  pub touched : ℕ
  pub flags : ℕ
  pub status : ℕ
  pub exit_status : ℕ
  pub ppid : ℕ
  pub uid : ℕ
  pub gid : ℕ
  pub ruid : ℕ
  pub rgid : ℕ
  pub svuid : ℕ
  pub svgid : ℕ
  pub comm : String
  pub name : String
  pub nfiles : ℕ
  pub pgid : ℕ
  pub pjobc : ℕ
  pub e_tdev : ℕ
  pub e_tpgid : ℕ
  pub start_sec : ℕ
  pub start_usec : ℕ
  pub nice : ℤ
  pub virtual_size : ℕ
  pub resident_size : ℕ
  pub total_user : ℕ
  pub delta_user : ℕ
  pub total_system : ℕ
  pub delta_system : ℕ
  pub threads_user : ℕ
  pub threads_system : ℕ
  pub policy : ℤ
  pub faults : ℤ
  pub pageins : ℤ
  pub cow_faults : ℤ
  pub messages_sent : ℤ
  pub messages_received : ℤ
  pub syscalls_mach : ℤ
  pub syscalls_unix : ℤ
  pub csw : ℤ
  pub threadnum : ℤ
  pub numrunning : ℤ
  pub priority : ℤ

-- The initialisers of the class.
unfoldable pub new_process : Process
new_process = record {
  pid = 0;
  delta_cpu = 0;
  pct_cpu = lit 0 0;
  touched = 0;
  flags = 0;
  status = 0;
  exit_status = 0;
  ppid = 0;
  uid = 0;
  gid = 0;
  ruid = 0;
  rgid = 0;
  svuid = 0;
  svgid = 0;
  comm = "";
  name = "";
  nfiles = 0;
  pgid = 0;
  pjobc = 0;
  e_tdev = 0;
  e_tpgid = 0;
  start_sec = 0;
  start_usec = 0;
  nice = pos 0;
  virtual_size = 0;
  resident_size = 0;
  total_user = 0;
  delta_user = 0;
  total_system = 0;
  delta_system = 0;
  threads_user = 0;
  threads_system = 0;
  policy = pos 0;
  faults = pos 0;
  pageins = pos 0;
  cow_faults = pos 0;
  messages_sent = pos 0;
  messages_received = pos 0;
  syscalls_mach = pos 0;
  syscalls_unix = pos 0;
  csw = pos 0;
  threadnum = pos 0;
  numrunning = pos 0;
  priority = pos 0;
}

-- `proc_bsdinfo` and `proc_taskinfo`, the fields that are read.
pub record BsdInfo : Type 0 where
  pub pbi_flags : ℕ
  pub pbi_status : ℕ
  pub pbi_xstatus : ℕ
  pub pbi_pid : ℕ
  pub pbi_ppid : ℕ
  pub pbi_uid : ℕ
  pub pbi_gid : ℕ
  pub pbi_ruid : ℕ
  pub pbi_rgid : ℕ
  pub pbi_svuid : ℕ
  pub pbi_svgid : ℕ
  pub pbi_comm : String
  pub pbi_name : String
  pub pbi_nfiles : ℕ
  pub pbi_pgid : ℕ
  pub pbi_pjobc : ℕ
  pub e_tdev : ℕ
  pub e_tpgid : ℕ
  pub pbi_start_tvsec : ℕ
  pub pbi_start_tvusec : ℕ
  pub pbi_nice : ℤ

pub record TaskInfo : Type 0 where
  pub pti_virtual_size : ℕ
  pub pti_resident_size : ℕ
  pub pti_total_user : ℕ
  pub pti_total_system : ℕ
  pub pti_threads_user : ℕ
  pub pti_threads_system : ℕ
  pub pti_policy : ℤ
  pub pti_faults : ℤ
  pub pti_pageins : ℤ
  pub pti_cow_faults : ℤ
  pub pti_messages_sent : ℤ
  pub pti_messages_received : ℤ
  pub pti_syscalls_mach : ℤ
  pub pti_syscalls_unix : ℤ
  pub pti_csw : ℤ
  pub pti_threadnum : ℤ
  pub pti_numrunning : ℤ
  pub pti_priority : ℤ

-- The assignments from `proc_bsdinfo`.
unfoldable pub set_bsd : BsdInfo → Process → Process
set_bsd proc p = record p {
  flags = proc.pbi_flags;
  status = proc.pbi_status;
  exit_status = proc.pbi_xstatus;
  pid = proc.pbi_pid;
  ppid = proc.pbi_ppid;
  uid = proc.pbi_uid;
  gid = proc.pbi_gid;
  ruid = proc.pbi_ruid;
  rgid = proc.pbi_rgid;
  svuid = proc.pbi_svuid;
  svgid = proc.pbi_svgid;
  comm = proc.pbi_comm;
  name = proc.pbi_name;
  nfiles = proc.pbi_nfiles;
  pgid = proc.pbi_pgid;
  pjobc = proc.pbi_pjobc;
  e_tdev = proc.e_tdev;
  e_tpgid = proc.e_tpgid;
  start_sec = proc.pbi_start_tvsec;
  start_usec = proc.pbi_start_tvusec;
  nice = proc.pbi_nice;
}

-- The time that the process has used since the update before; a new process has used none.
unfoldable pub set_deltas : Bool → TaskInfo → Process → Process
set_deltas true info p = record p { delta_system = 0; delta_user = 0 }
set_deltas false info p = record p {
  delta_system = sub64 info.pti_total_system p.total_system;
  delta_user = sub64 info.pti_total_user p.total_user;
}

unfoldable pub set_cpu : (touched total_ticks : ℕ) → Process → Process
set_cpu touched total_ticks p =
    let delta_cpu = add64 p.delta_system p.delta_user in
    record p {
      touched = touched;
      delta_cpu = delta_cpu;
      pct_cpu = if ltb 0 total_ticks then div (of_u64 delta_cpu) (of_u64 total_ticks) else lit 0 0;
    }

-- The assignments from `proc_taskinfo`.
unfoldable pub set_task : TaskInfo → Process → Process
set_task info p = record p {
  virtual_size = info.pti_virtual_size;
  resident_size = info.pti_resident_size;
  total_user = info.pti_total_user;
  total_system = info.pti_total_system;
  threads_user = info.pti_threads_user;
  threads_system = info.pti_threads_system;
  policy = info.pti_policy;
  faults = info.pti_faults;
  pageins = info.pti_pageins;
  cow_faults = info.pti_cow_faults;
  messages_sent = info.pti_messages_sent;
  messages_received = info.pti_messages_received;
  syscalls_mach = info.pti_syscalls_mach;
  syscalls_unix = info.pti_syscalls_unix;
  csw = info.pti_csw;
  threadnum = info.pti_threadnum;
  numrunning = info.pti_numrunning;
  priority = info.pti_priority;
}

-- The assignments of a round, in their order.
unfoldable pub fill : (touched total_ticks : ℕ) → BsdInfo → TaskInfo → Process → Bool → Process
fill touched total_ticks proc info p is_new =
    p ▷ set_bsd proc ▷ set_deltas is_new info ▷ set_cpu touched total_ticks ▷ set_task info

set_deltas-pid :
    (is_new : Bool) (info : TaskInfo) (p : Process) → (set_deltas is_new info p).pid ≡ p.pid
unfolding set_deltas
set_deltas-pid true info p = refl
set_deltas-pid false info p = refl

pub fill-pid :
    (touched total_ticks : ℕ) (proc : BsdInfo) (info : TaskInfo) (p : Process) (is_new : Bool)
    → (fill touched total_ticks proc info p is_new).pid ≡ proc.pbi_pid
unfolding fill set_bsd set_cpu set_task
fill-pid touched total_ticks proc info p is_new = set_deltas-pid is_new info (set_bsd proc p)

pub fill-touched :
    (touched total_ticks : ℕ) (proc : BsdInfo) (info : TaskInfo) (p : Process) (is_new : Bool)
    → (fill touched total_ticks proc info p is_new).touched ≡ touched
unfolding fill set_cpu set_task
fill-touched touched total_ticks proc info p is_new = refl
