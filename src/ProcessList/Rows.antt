-- ===== src/ProcessList/Rows.antt =====
-- macos/ProcessList.cpp: the lines of `print`, and how many processes it shows.
use package.text.Mathlib.Text.{◌==◌}
use cctop.Prelude.{
  ℕ, ◌+◌, ◌≤◌, Bool, List, [], ◌∷◌, ◌≡◌, refl, arith, length, if◌then◌else◌, Bool-cases, inl, inr,
}
use cctop.Prelude.Int.{ℤ, pos_part}
use cctop.Terminal.{Env}
use cctop.Options.{Options}
use cctop.Console.{Console, printed, cursor_row, println}
use cctop.Console.Lines.{line_laws, printed-println, printed-inverseln, end_section_lem}
use cctop.Sort.{sort}
use cctop.ProcessList.{
  ProcessList, print_process, is_full, print_list, header, lines_left, print_processes, sorted_of,
  cmp, num,
}
use cctop.ProcessList.Entry.{Process}
use cctop.ProcessList.Users.{Accounts, Caches}

module _ ⦃env : Env⦄ (accounts : Accounts) where
  printed-print_process :
      (p : Process) (caches : Caches) (c : Console)
      → printed (print_process accounts p (caches, c)).1 ≡ printed c + 1
  unfolding print_process
  printed-print_process p caches c = elim (Bool-cases (p.name == "cctop")) [
    | inl own ↦ rw own (simp line_laws (omega arith))
    | inr other ↦ rw other (simp line_laws (omega arith))
  ]

  print_list_lem :
      (o : Options) (lines : ℤ) (n : ℕ) (ps : List Process) (s : Caches × Console)
      → n ≤ pos_part lines
      → let (shown, (caches, d)) = print_list accounts o lines n ps s in
        (printed d ≡ printed s.1 + shown)
        × (shown ≤ (if o.condense_processes then 1 else length ps))
        × (shown + n ≤ pos_part lines + 1)
  unfolding print_list is_full
  print_list_lem o lines n [] s h = ground arith
  print_list_lem o lines n (p ∷ ps) s h = ground (
    arith,
    printed-print_process p s.0 s.1,
    print_list_lem o lines (n + 1) ps (print_process accounts p s),
  )

shown_bound :
    (short : Bool) (shown all room : ℕ)
    → shown ≤ (if short then 1 else all)
    → shown + 0 ≤ room + 1
    → shown ≤ 1 + (if short then 0 else room)
shown_bound short shown all room h h' = ground arith

module _ ⦃env : Env⦄ where
  printed-header : (c : Console) → printed (header c) ≡ printed c + 1
  unfolding header
  printed-header c = omega (arith, printed-inverseln _ _ c)

  printed-lines_left : (c : Console) → printed (lines_left c).0 ≡ printed c
  unfolding printed lines_left cursor_row
  printed-lines_left c = refl

module _ ⦃env : Env⦄ (accounts : Accounts) where
  -- The display returns the number of the lines that it prints: the header, the line with the number
  -- of processes, the blank line if there is one, and one for each process that is shown. These are
  -- at most one more than the rows that are left, and at most one if they are condensed.
  pub print_processes_lem :
      (blank : Bool) (o : Options) (l : ProcessList) (caches : Caches) (c : Console)
      → let (l', (caches', (d, n))) = print_processes accounts blank o l caches c in
        (printed d ≡ printed c + n)
        × (n
            ≤ 3
              + (if o.condense_processes then 0 else pos_part (lines_left (header c)).1)
              + (if blank then 1 else 0))
  unfolding print_processes
  print_processes_lem blank o l caches c =
      let sorted = sort cmp (sorted_of l.touched l.list) in
      let start = lines_left (header c) in
      let out = print_list accounts o start.1 0 sorted (caches, start.0) in
      let (lines, some_shown, room) =
        print_list_lem accounts o start.1 0 sorted (caches, start.0) (omega arith) in
      let last = println "  %ld processes" (num (length sorted) ∷ []) out.1.1 in
      let (count, all) = end_section_lem blank last (2 + out.0) in
      let total = printed-println out.1.1 "  %ld processes" (num (length sorted) ∷ []) in
      let head = printed-header c in
      let left = printed-lines_left (header c) in
      let few = shown_bound o.condense_processes out.0 _ _ some_shown room in
      (omega (arith, all, total, lines, head, left), omega (arith, count, few))
