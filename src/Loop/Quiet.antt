-- ===== src/Loop/Quiet.antt =====
-- main.cpp: none of the displays of a pass touches the session of the console. (Those of the cores and
-- of the interfaces have that with their lines.)
use package.text.Mathlib.Text.{◌==◌}
use cctop.Prelude.{ℕ, String, Bool, List, [], ◌∷◌, ◌≡◌, refl, ◌∙◌, arith, Bool-cases, inl, inr, ◌+◌}
use cctop.Prelude.Int.{ℤ}
use cctop.Terminal.{Env, real}
use cctop.Options.{Options}
use cctop.Console.{Console, cursor_row}
use cctop.Console.Frame.{
  ending, frame_laws, ending-window, ending-println, ending-end_section, ending-print,
  ending-inverseln,
}
use cctop.Help.{option_line, contents, show}
use cctop.Loop.{resize_help}
use cctop.Map.{Map}
use cctop.Memory.{
  Memory, print_memory, print_virtual_memory, print_swap, print_real, print_paging, virtual_header,
}
use cctop.Disk.{Disk, print_disk, print_stats}
use cctop.Disk
use cctop.Disk.Stats.{DiskStats}
use cctop.Platform.{
  Platform, BatteryInfo, print_platform, print_uptime, print_battery, print_time, hours_remaining,
}
use cctop.ProcessList.{ProcessList, print_process, print_list, is_full, lines_left, print_processes}
use cctop.ProcessList
use cctop.ProcessList.Entry.{Process}
use cctop.ProcessList.Users.{Accounts, Caches}

ending-option_line :
    (row : ℕ) (format what : String) (on : Bool) (c : Console)
    → ending (option_line row format what on c) ≡ ending c
unfolding option_line
ending-option_line row format what on c = simp frame_laws

ending-contents : (o : Options) (c : Console) → ending (contents o c) ≡ ending c
unfolding contents
ending-contents o c = simp (frame_laws, ending-option_line, ending-window)

pub ending-show : (o : Options) (c : Console) → ending (show o c) ≡ ending c
unfolding show
ending-show o c = ground (arith, ending-contents o c)

pub ending-resize_help : (c : Console) → ending (resize_help c) ≡ ending c
unfolding resize_help
ending-resize_help c = simp frame_laws

ending-print_swap : (o : Options) (m : Memory) (c : Console) → ending (print_swap o m c) ≡ ending c
unfolding print_swap
ending-print_swap o m c = elim (Bool-cases o.condense_memory) [
  | inl short ↦ rw short refl
  | inr long ↦ rw long (ending-println c _ _)
]

ending-print_paging :
    (m : Memory) (c : Console) (count : ℕ) → ending (print_paging m (c, count)).0 ≡ ending c
unfolding print_paging
ending-print_paging m c count = simp frame_laws

ending-print_stats : (s : DiskStats) (c : Console) → ending (print_stats s c) ≡ ending c
unfolding print_stats
ending-print_stats s c = ending-println c _ _

ending-print_drives :
    (m : Map String DiskStats) (c : Console) (count : ℕ)
    → ending (Disk.print_all m (c, count)).0 ≡ ending c
unfolding Disk.print_all
ending-print_drives [] c count = refl
ending-print_drives ((_, s) ∷ m) c count =
    ending-print_drives m (print_stats s c) _ ∙ ending-print_stats s c

module _ ⦃env : Env⦄ where
  ending-print_real : (m : Memory) (c : Console) → ending (print_real m c) ≡ ending c
  unfolding print_real
  ending-print_real m c = simp frame_laws

  pub ending-print_memory :
      (blank : Bool) (o : Options) (m : Memory) (c : Console)
      → ending (print_memory blank o m c).0 ≡ ending c
  unfolding print_memory
  ending-print_memory blank o m c =
      ending-end_section blank _ 2 ∙ ending-print_swap o m _ ∙ ending-print_real m c

  pub ending-print_virtual_memory :
      (blank : Bool) (o : Options) (m : Memory) (c : Console)
      → ending (print_virtual_memory blank o m c).0 ≡ ending c
  unfolding print_virtual_memory virtual_header
  ending-print_virtual_memory blank o m c = elim (Bool-cases o.condense_virtual_memory) [
    | inl short ↦ rw short (ending-end_section blank _ _ ∙ ending-inverseln _ _ c)
    | inr long ↦
        rw long (ending-end_section blank _ _ ∙ ending-print_paging m _ 1 ∙ ending-inverseln _ _ c)
  ]

  pub ending-print_disk :
      (blank : Bool) (o : Options) (d : Disk) (c : Console)
      → ending (print_disk blank o d c).0 ≡ ending c
  unfolding print_disk Disk.header
  ending-print_disk blank o d c = elim (Bool-cases o.condense_disk) [
    | inl short ↦ rw short (ending-end_section blank _ _ ∙ ending-inverseln _ _ c)
    | inr long ↦ rw long (
        ending-end_section blank _ _
        ∙ ending-print_drives d.sampler.delta _ 1
        ∙ ending-inverseln _ _ c)
  ]

  ending-print_uptime : (q : Platform) (c : Console) → ending (print_uptime q c) ≡ ending c
  unfolding print_uptime
  ending-print_uptime q c = simp frame_laws

  ending-print_time : (b : BatteryInfo) (c : Console) → ending (print_time b c) ≡ ending c
  unfolding print_time
  ending-print_time b c = ground (
    arith,
    ending-print c " %.1f hours remaining" (real (hours_remaining b) ∷ []),
    ending-print c " Caluclating time remaining" [],
  )

  ending-print_battery : (b : BatteryInfo) (c : Console) → ending (print_battery b c) ≡ ending c
  unfolding print_battery
  ending-print_battery b c = simp (frame_laws, ending-print_time)

  pub ending-print_platform :
      (blank : Bool) (out : String) (uptime : ℕ) (q : Platform) (c : Console)
      → ending (print_platform blank out uptime q c).1.0 ≡ ending c
  unfolding print_platform
  ending-print_platform blank out uptime q c =
      ending-end_section blank _ 2
      ∙ ending-print_battery _ _
      ∙ ending-print_uptime _ _
      ∙ ending-inverseln out [] c

  ending-lines_left : (c : Console) → ending (lines_left c).0 ≡ ending c
  unfolding ending lines_left cursor_row
  ending-lines_left c = refl

module _ ⦃env : Env⦄ (accounts : Accounts) where
  ending-print_process :
      (p : Process) (caches : Caches) (c : Console)
      → ending (print_process accounts p (caches, c)).1 ≡ ending c
  unfolding print_process
  ending-print_process p caches c = elim (Bool-cases (p.name == "cctop")) [
    | inl own ↦ rw own (simp frame_laws)
    | inr other ↦ rw other (simp frame_laws)
  ]

  ending-print_list :
      (o : Options) (lines : ℤ) (n : ℕ) (ps : List Process) (s : Caches × Console)
      → ending (print_list accounts o lines n ps s).1.1 ≡ ending s.1
  unfolding print_list is_full
  ending-print_list o lines n [] s = refl
  ending-print_list o lines n (p ∷ ps) s = ground (
    arith,
    ending-print_process p s.0 s.1,
    ending-print_list o lines (n + 1) ps (print_process accounts p s),
  )

  pub ending-print_processes :
      (blank : Bool) (o : Options) (l : ProcessList) (caches : Caches) (c : Console)
      → ending (print_processes accounts blank o l caches c).1.1.0 ≡ ending c
  unfolding print_processes ProcessList.header
  ending-print_processes blank o l caches c =
      ending-end_section blank _ _
      ∙ ending-println _ _ _
      ∙ ending-print_list o _ 0 _ (caches, _)
      ∙ ending-lines_left _
      ∙ ending-inverseln _ _ c
