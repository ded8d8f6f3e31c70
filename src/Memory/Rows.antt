-- ===== src/Memory/Rows.antt =====
-- macos/Memory.cpp: `print` and `printVirtualMemory`.
use cctop.Prelude.{ℕ, ◌+◌, Bool, ◌≡◌, arith, if◌then◌else◌, Bool-cases, inl, inr}
use cctop.Terminal.{Env}
use cctop.Options.{Options}
use cctop.Console.{Console, printed}
use cctop.Console.Lines.{line_laws, printed-println, printed-inverseln, end_section_lem}
use cctop.Memory.{
  Memory, print_swap, print_paging, print_real, print_memory, virtual_header, print_virtual_memory,
}

printed-print_swap :
    (o : Options) (m : Memory) (c : Console)
    → printed (print_swap o m c) ≡ printed c + (if o.condense_memory then 0 else 1)
unfolding print_swap
printed-print_swap o m c = elim (Bool-cases o.condense_memory) [
  | inl short ↦ rw short (omega arith)
  | inr long ↦ rw long (omega (arith, printed-println c _ _))
]

printed-print_paging :
    (m : Memory) (c : Console) (count : ℕ) → printed (print_paging m (c, count)).0 ≡ printed c + 2
unfolding print_paging
printed-print_paging m c count = simp line_laws (omega arith)

module _ ⦃env : Env⦄ where
  printed-print_real : (m : Memory) (c : Console) → printed (print_real m c) ≡ printed c + 2
  unfolding print_real
  printed-print_real m c = simp line_laws (omega arith)

  printed-virtual_header : (c : Console) → printed (virtual_header c) ≡ printed c + 1
  unfolding virtual_header
  printed-virtual_header c = omega (arith, printed-inverseln _ _ c)

  -- `print` returns the number of the lines that it prints less the one for swap.
  pub print_memory_lem :
      (blank : Bool) (o : Options) (m : Memory) (c : Console)
      → let (d, n) = print_memory blank o m c in
        (printed d ≡ printed c + n + (if o.condense_memory then 0 else 1))
        × (n ≡ 2 + (if blank then 1 else 0))
  unfolding print_memory
  print_memory_lem blank o m c =
      let swap = print_swap o m (print_real m c) in
      omega (
        arith,
        end_section_lem blank swap 2,
        printed-print_swap o m (print_real m c),
        printed-print_real m c,
      )

  -- `printVirtualMemory` returns the number of the lines that it prints.
  pub print_virtual_memory_lem :
      (blank : Bool) (o : Options) (m : Memory) (c : Console)
      → let (d, n) = print_virtual_memory blank o m c in
        (printed d ≡ printed c + n)
        × (n ≡ (if o.condense_virtual_memory then 1 else 3) + (if blank then 1 else 0))
  unfolding print_virtual_memory print_paging
  print_virtual_memory_lem blank o m c = elim (Bool-cases o.condense_virtual_memory) [
    | inl short ↦
        rw short
          (omega (arith, end_section_lem blank (virtual_header c) 1, printed-virtual_header c))
    | inr long ↦ rw long (
        omega (
          arith,
          end_section_lem blank (print_paging m (virtual_header c, 1)).0 3,
          printed-print_paging m (virtual_header c) 1,
          printed-virtual_header c,
        ))
  ]
