-- ===== src/ProcessList/Fits.antt =====
-- macos/ProcessList.cpp: the list of processes ends in the window.
use std.Path.{sym}
use cctop.Prelude.{
  ℕ, zero, suc, ◌+◌, ◌-◌, ◌≤◌, String, Bool, true, false, List, [], ◌∷◌, ◌≡◌, refl, ◌∙◌, ap, arith,
  length, repeat, if◌then◌else◌,
}
use cctop.Prelude.Int.{pos_part}
use cctop.Terminal.{Arg, Env, num}
use cctop.Options.{Options}
use cctop.Console.{Console, call, clear_eol, printed, cursor_row, newline, print, println}
use cctop.Console.Modes.{mode_inverse, set_mode}
use cctop.Console.Output.{inverseln}
use cctop.Console.Lines.{end_section_lem}
use cctop.Sort.{sort, length-sort}
use cctop.ProcessList.{ProcessList, header, lines_left, print_list, print_processes, sorted_of, cmp}
use cctop.ProcessList.Rows.{print_processes_lem}
use cctop.ProcessList.Shown.{shown_of, print_list-each}
use cctop.ProcessList.Users.{Accounts, Caches}

height-repeat :
    (n : ℕ) (f : Console → Console) (c : Console)
    → ((d : Console) → (f d).height ≡ d.height)
    → (repeat n f c).height ≡ c.height
unfolding repeat
height-repeat zero f c same = refl
height-repeat (suc n) f c same = height-repeat n f (f c) same ∙ same c

height-print :
    (format : String) (args : List Arg) (c : Console) → (print format args c).height ≡ c.height
unfolding print call
height-print format args c = refl

height-mode_inverse : (on : Bool) (c : Console) → (mode_inverse on c).height ≡ c.height
unfolding mode_inverse set_mode call
height-mode_inverse true c = refl
height-mode_inverse false c = refl

height-newline : (c : Console) → (newline true c).height ≡ c.height
unfolding newline clear_eol call
height-newline c = refl

module _ ⦃env : Env⦄ where
  height-header : (c : Console) → (header c).height ≡ c.height
  unfolding header inverseln
  height-header c =
      height-newline _
      ∙ height-mode_inverse false _
      ∙ height-repeat _ (print " " []) _ (λ d. height-print " " [] d)
      ∙ height-print _ _ _
      ∙ height-mode_inverse true c

  room_of : (c : Console) → pos_part (lines_left c).1 ≡ c.height - ((cursor_row c).1 + 2)
  unfolding lines_left cursor_row
  room_of c = ground arith

shown_of_le : (condensed : Bool) (room all : ℕ) → shown_of condensed room all ≤ room + 1
shown_of_le condensed room all = ground arith

module _ ⦃env : Env⦄ (accounts : Accounts) where
  -- If at least two rows are left below the header, by the row that curses answers after it: `print`
  -- returns the number of the lines that it prints, that is the header, a line for each process that
  -- `shown_of` counts, the line with their number, and the blank line if there is one; and the lines
  -- below the header, but for the blank one, are no more than the rows from that row on.
  pub print_processes_fits :
      (blank : Bool) (o : Options) (l : ProcessList) (caches : Caches) (c : Console)
      → (cursor_row (header c)).1 + 2 ≤ c.height
      → let row = (cursor_row (header c)).1 in
        let (d, n) = (print_processes accounts blank o l caches c).1.1 in
        (printed d ≡ printed c + n)
        × (n
            ≡ 2
              + shown_of o.condense_processes
                  (c.height - (row + 2))
                  (length (sorted_of l.touched l.list))
              + (if blank then 1 else 0))
        × (row + n ≤ c.height + 1 + (if blank then 1 else 0))
  unfolding print_processes
  print_processes_fits blank o l caches c h =
      let sorted = sort cmp (sorted_of l.touched l.list) in
      let start = lines_left (header c) in
      let room : pos_part start.1 - 0 ≡ c.height - ((cursor_row (header c)).1 + 2) =
        omega (arith, room_of (header c), height-header c) in
      let k =
        shown_of o.condense_processes (c.height - ((cursor_row (header c)).1 + 2))
          (length (sorted_of l.touched l.list)) in
      let shown =
        print_list-each accounts o start.1 0 sorted (caches, start.0) k (omega arith)
          (ap (λ r. shown_of o.condense_processes r (length (sorted_of l.touched l.list)))
              (sym room)
            ∙ ap (λ n. shown_of o.condense_processes (pos_part start.1 - 0) n)
                (sym (length-sort cmp (sorted_of l.touched l.list)))) in
      let out = print_list accounts o start.1 0 sorted (caches, start.0) in
      let last = println "  %ld processes" (num (length sorted) ∷ []) out.1.1 in
      let (count, _) = end_section_lem blank last (2 + out.0) in
      let (all, _) = print_processes_lem accounts blank o l caches c in
      let few =
        shown_of_le o.condense_processes (c.height - ((cursor_row (header c)).1 + 2))
          (length (sorted_of l.touched l.list)) in
      (
        all,
        omega (arith, count, ap (λ r. r.0) shown),
        omega (arith, count, ap (λ r. r.0) shown, few, h),
      )
