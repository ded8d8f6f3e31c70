-- ===== src/Loop/Plain.antt =====
-- main.cpp: the displays of a pass leave nothing switched on, and the colours as they are the terminal's.
use package.text.Mathlib.Text.{◌==◌}
use cctop.Prelude.{
  true, false, ℕ, String, Bool, List, [], ◌∷◌, ◌≡◌, refl, ◌∙◌, ap, arith, Bool-cases, inl, inr, ◌+◌,
  true, false,
}
use cctop.Prelude.Int.{ℤ}
use cctop.Terminal.{Env, real}
use cctop.Options.{Options}
use cctop.Console.{Console, cursor_row}
use cctop.Console.Pen.{
  pen, pen_laws, IsPlain, Pen, inverseln-IsPlain, pen-end_section, pen-window, pen-println,
  pen-print, pen-mode_bold, pen-newline, pen-clear_eol, pen-gauge,
}
use cctop.Help.{option_line, contents, show}
use cctop.Loop.{resize_help}
use cctop.Map.{Map}
use cctop.Memory.{
  Memory, print_memory, print_virtual_memory, print_swap, print_real, print_paging, virtual_header,
}
use cctop.Disk.{Disk, print_disk, print_stats}
use cctop.Disk
use cctop.Disk.Stats.{DiskStats}
use cctop.Platform.{
  Platform, BatteryInfo, print_platform, print_battery, print_time, hours_remaining,
}
use cctop.ProcessList.{ProcessList, print_process, print_list, is_full, lines_left, print_processes}
use cctop.ProcessList
use cctop.ProcessList.Entry.{Process}
use cctop.ProcessList.Users.{Accounts, Caches}

pen-option_line :
    (row : ℕ) (format what : String) (on : Bool) (c : Console)
    → pen (option_line row format what on c) ≡ pen c
unfolding option_line
pen-option_line row format what on c = simp pen_laws

pen-contents : (o : Options) (c : Console) → pen (contents o c) ≡ pen c
unfolding contents
pen-contents o c = simp (pen_laws, pen-option_line, pen-window)

pub pen-show : (o : Options) (c : Console) → pen (show o c) ≡ pen c
unfolding show
pen-show o c = ground (arith, pen-contents o c)

pub pen-resize_help : (c : Console) → pen (resize_help c) ≡ pen c
unfolding resize_help
pen-resize_help c = simp pen_laws

pen-print_swap : (o : Options) (m : Memory) (c : Console) → pen (print_swap o m c) ≡ pen c
unfolding print_swap
pen-print_swap o m c = elim (Bool-cases o.condense_memory) [
  | inl short ↦ rw short refl
  | inr long ↦ rw long (pen-println c _ _)
]

pen-print_paging :
    (m : Memory) (c : Console) (count : ℕ) → pen (print_paging m (c, count)).0 ≡ pen c
unfolding print_paging
pen-print_paging m c count = simp pen_laws

pen-print_stats : (s : DiskStats) (c : Console) → pen (print_stats s c) ≡ pen c
unfolding print_stats
pen-print_stats s c = pen-println c _ _

pen-print_drives :
    (m : Map String DiskStats) (c : Console) (count : ℕ)
    → pen (Disk.print_all m (c, count)).0 ≡ pen c
unfolding Disk.print_all
pen-print_drives [] c count = refl
pen-print_drives ((_, s) ∷ m) c count = pen-print_drives m (print_stats s c) _ ∙ pen-print_stats s c

module _ ⦃env : Env⦄ where
  print_real-IsPlain : (m : Memory) (c : Console) → IsPlain (print_real m c)
  unfolding print_real
  print_real-IsPlain m c = pen-newline _ true ∙ pen-gauge _ _ _ _

  pub print_memory-IsPlain :
      (blank : Bool) (o : Options) (m : Memory) (c : Console) → IsPlain (print_memory blank o m c).0
  unfolding print_memory
  print_memory-IsPlain blank o m c =
      pen-end_section blank _ 2 ∙ pen-print_swap o m _ ∙ print_real-IsPlain m c

  pub print_virtual_memory-IsPlain :
      (blank : Bool) (o : Options) (m : Memory) (c : Console)
      → IsPlain c
      → IsPlain (print_virtual_memory blank o m c).0
  unfolding print_virtual_memory virtual_header
  print_virtual_memory-IsPlain blank o m c h = elim (Bool-cases o.condense_virtual_memory) [
    | inl short ↦ rw short (pen-end_section blank _ _ ∙ inverseln-IsPlain _ _ c h)
    | inr long ↦
        rw long (pen-end_section blank _ _ ∙ pen-print_paging m _ 1 ∙ inverseln-IsPlain _ _ c h)
  ]

  pub print_disk-IsPlain :
      (blank : Bool) (o : Options) (d : Disk) (c : Console)
      → IsPlain c
      → IsPlain (print_disk blank o d c).0
  unfolding print_disk Disk.header
  print_disk-IsPlain blank o d c h = elim (Bool-cases o.condense_disk) [
    | inl short ↦ rw short (pen-end_section blank _ _ ∙ inverseln-IsPlain _ _ c h)
    | inr long ↦ rw long (
        pen-end_section blank _ _
        ∙ pen-print_drives d.sampler.delta _ 1
        ∙ inverseln-IsPlain _ _ c h)
  ]

  pen-print_time : (b : BatteryInfo) (c : Console) → pen (print_time b c) ≡ pen c
  unfolding print_time
  pen-print_time b c = ground (
    arith,
    pen-print c " %.1f hours remaining" (real (hours_remaining b) ∷ []),
    pen-print c " Caluclating time remaining" [],
  )

  print_battery-IsPlain : (b : BatteryInfo) (c : Console) → IsPlain (print_battery b c)
  unfolding print_battery
  print_battery-IsPlain b c =
      pen-newline _ true ∙ pen-clear_eol _ ∙ pen-print_time b _ ∙ pen-gauge _ _ _ _

  pub print_platform-IsPlain :
      (blank : Bool) (out : String) (uptime : ℕ) (q : Platform) (c : Console)
      → IsPlain (print_platform blank out uptime q c).1.0
  unfolding print_platform
  print_platform-IsPlain blank out uptime q c =
      pen-end_section blank _ 2 ∙ print_battery-IsPlain _ _

  pen-lines_left : (c : Console) → pen (lines_left c).0 ≡ pen c
  unfolding pen lines_left cursor_row
  pen-lines_left c = refl

module _ ⦃env : Env⦄ (accounts : Accounts) where
  print_process-IsPlain :
      (p : Process) (caches : Caches) (c : Console)
      → IsPlain c
      → IsPlain (print_process accounts p (caches, c)).1
  unfolding print_process
  print_process-IsPlain p caches c h = elim (Bool-cases (p.name == "cctop")) [
    | inl own ↦ rw own (
        pen-mode_bold _ false
        ∙ ap (λ (p : Pen). record p { bold = false })
            (pen-println _ _ _
              ∙ pen-mode_bold c true
              ∙ ap (λ (p : Pen). record p { bold = true }) h))
    | inr other ↦ rw other (
        pen-mode_bold _ false ∙ ap (λ (p : Pen). record p { bold = false }) (pen-println _ _ _ ∙ h))
  ]

  print_list-IsPlain :
      (o : Options) (lines : ℤ) (n : ℕ) (ps : List Process) (s : Caches × Console)
      → IsPlain s.1
      → IsPlain (print_list accounts o lines n ps s).1.1
  unfolding print_list is_full
  print_list-IsPlain o lines n [] s h = h
  print_list-IsPlain o lines n (p ∷ ps) s h =
      let shown = print_process-IsPlain p s.0 s.1 h in
      ground
        (arith, shown, print_list-IsPlain o lines (n + 1) ps (print_process accounts p s) shown)

  pub print_processes-IsPlain :
      (blank : Bool) (o : Options) (l : ProcessList) (caches : Caches) (c : Console)
      → IsPlain c
      → IsPlain (print_processes accounts blank o l caches c).1.1.0
  unfolding print_processes ProcessList.header
  print_processes-IsPlain blank o l caches c h =
      pen-end_section blank _ _
      ∙ pen-println _ _ _
      ∙ print_list-IsPlain o _ 0 _ (caches, _) (pen-lines_left _ ∙ inverseln-IsPlain _ _ c h)
