-- ===== src/Disk/Rows.antt =====
-- macos/Disk.cpp: `Disk::print`.
use cctop.Prelude.{
  ℕ, ◌+◌, String, Bool, [], ◌∷◌, ◌≡◌, arith, length, if◌then◌else◌, Bool-cases, inl, inr,
}
use cctop.Terminal.{Env}
use cctop.Map.{Map}
use cctop.Options.{Options}
use cctop.Console.{Console, printed}
use cctop.Console.Lines.{printed-println, printed-inverseln, end_section_lem}
use cctop.Disk.{Disk, print_stats, print_all, print_disk, header}
use cctop.Disk.Stats.{DiskStats}

printed-print_stats : (s : DiskStats) (c : Console) → printed (print_stats s c) ≡ printed c + 1
unfolding print_stats
printed-print_stats s c = omega (arith, printed-println c _ _)

print_all_lem :
    (m : Map String DiskStats) (c : Console) (count : ℕ)
    → let (d, n) = print_all m (c, count) in
      (printed d ≡ printed c + length m) × (n ≡ count + length m)
unfolding print_all
print_all_lem [] c count = omega arith
print_all_lem ((_, s) ∷ m) c count =
    omega (arith, print_all_lem m (print_stats s c) (count + 1), printed-print_stats s c)

module _ ⦃env : Env⦄ where
  printed-header : (c : Console) → printed (header c) ≡ printed c + 1
  unfolding header
  printed-header c = omega (arith, printed-inverseln _ _ c)

  -- The display returns the number of the lines that it prints: the header, one for each drive in
  -- `delta` unless they are condensed, and the blank line if there is one.
  pub print_disk_lem :
      (blank : Bool) (o : Options) (disk : Disk) (c : Console)
      → let (d, n) = print_disk blank o disk c in
        (printed d ≡ printed c + n)
        × (n
            ≡ 1
              + (if o.condense_disk then 0 else length disk.sampler.delta)
              + (if blank then 1 else 0))
  unfolding print_disk
  print_disk_lem blank o disk c = elim (Bool-cases o.condense_disk) [
    | inl short ↦ rw short (omega (arith, end_section_lem blank (header c) 1, printed-header c))
    | inr long ↦
        let out = print_all disk.sampler.delta (header c, 1) in
        rw long (
          omega (
            arith,
            end_section_lem blank out.0 out.1,
            print_all_lem disk.sampler.delta (header c) 1,
            printed-header c,
          ))
  ]
