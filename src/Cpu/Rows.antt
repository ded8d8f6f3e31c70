-- ===== src/Cpu/Rows.antt =====
-- macos/CPU.cpp: `CPU::print` as a whole.
use cctop.Cpu.Frame.{ending-print_row}
use cctop.Console.Frame.{ending, frame_laws, ending-end_section}
use cctop.Sampler.Copy.{insert-Named, lookup-Named}
use cctop.Prelude.{
  ℕ, zero, suc, ◌+◌, ◌<◌, ◌≡◌, refl, sym, ap, ◌∙◌, String, Bool, some, arith, if◌then◌else◌,
  Bool-cases, inl, inr,
}
use native.Mathlib.Nat.{add-zero}
use cctop.Terminal.{Env}
use cctop.Map.{string_key, lookup, insert}
use cctop.Map.Laws.{lookup-insert}
use cctop.Options.{Options}
use cctop.Console.{Console, printed}
use cctop.Console.Lines.{line_laws, end_section_lem}
use cctop.Sampler.{Named}
use cctop.Prelude.Int.{ℤ}
use cctop.Sampler.Diff.{Within}
use cctop.Console.Output.{end_section}
use cctop.Cpu.{Cpu, Naming}
use cctop.Cpu.Core.{CpuCore, core_stat, add_history}
use cctop.Cpu.Level.{printed-print_row}
use cctop.Cpu.Print.{print_core, print_named, print_cores, print_cpu, Cores, header}

abbrev pub Has : String → Cores → Type 0
Has k m = (core : CpuCore) × (lookup k m ≡ some core)

-- A replaced or a new entry takes no name away.
pub Within-insert : (k : String) (v : CpuCore) (m : Cores) → Within m (insert k v m)
Within-insert k v m j u e = elim (Bool-cases (string_key.eq k j)) [
  | inl same ↦ (v, lookup-insert k j v m ∙ rw same)
  | inr other ↦ (u, lookup-insert k j v m ∙ rw other e)
]

module _ ⦃names : Naming⦄ where
  -- The object of the total and those of the cores are in the map.
  abbrev pub Complete : ℕ → Cores → Type 0
  Complete n m = Has "CPU" m × ((i : ℕ) → i < n → Has (names.core_name i) m)

-- What the display does to `delta`: it keeps the names, and the objects stand under theirs.
pub record Changed (m m' : Cores) : Type 0 where
  pub keeps : Within m m'
  pub named : Named m → Named m'
  pub within : (current : Cores) → Within m current → Within m' current

Changed-refl : (m : Cores) → Changed m m
Changed-refl m = record { keeps = λ k v e. (v, e); named = λ h. h; within = λ current h. h }

Changed-trans : (a b c : Cores) → Changed a b → Changed b c → Changed a c
Changed-trans a b c f g = record {
  keeps = λ k v e. let (u, e') = f.keeps k v e in g.keeps k u e';
  named = λ h. g.named (f.named h);
  within = λ current h. g.within current (f.within current h);
}

Changed-insert :
    (k : String) (core v : CpuCore) (m : Cores)
    → lookup k m ≡ some core
    → v.name ≡ core.name
    → Changed m (insert k v m)
Changed-insert k core v m e same = record {
  keeps = Within-insert k v m;
  named = λ h. insert-Named k v m (same ∙ lookup-Named k m core h e) h;
  within = λ current h j u f. elim (Bool-cases (string_key.eq k j)) [
    | inl eq ↦ rw ((string_key.eq_iff k j).0 eq) at (h k core e)
    | inr ne ↦ h j u (rw ne at (sym (lookup-insert k j v m) ∙ f))
  ];
}

name-add_history : (h : ℤ) (core : CpuCore) → (add_history h core).name ≡ core.name
unfolding add_history
name-add_history h core = refl

module _ ⦃env : Env⦄ where
  print_named_lem :
      (name : String) (m : Cores) (c : Console)
      → Has name m
      → (m' : Cores) × (d : Console) × (print_named name m c ≡ some (m', d))
        × (printed d ≡ suc (printed c))
        × (ending d ≡ ending c)
        × Changed m m'
  unfolding print_named print_core
  print_named_lem name m c (core, e) =
      let out = print_core core c in
      (
        insert name out.0 m,
        out.1,
        rw (e, print_named) refl,
        printed-print_row out.0 c,
        ending-print_row out.0 c,
        Changed-insert name core out.0 m e (name-add_history _ core),
      )

  module _ ⦃names : Naming⦄ where
    open names use {core_name}

    printed-header : (c : Console) → printed (header c) ≡ suc (printed c)
    printed-header c = simp line_laws

    ending-header : (c : Console) → ending (header c) ≡ ending c
    ending-header c = simp frame_laws

    shown_le :
        (o : Options) (cpu : Cpu) (j : ℕ)
        → j < 0 + (if o.condense_cpu then 0 else cpu.num_cores)
        → j < cpu.num_cores
    shown_le o cpu j h = ground arith

    print_cores_lem :
        (left i count : ℕ) (m : Cores) (c : Console)
        → ((j : ℕ) → j < i + left → Has (core_name j) m)
        → (m' : Cores) × (d : Console) × (print_cores left i count m c ≡ some (m', d, count + left))
          × (printed d ≡ printed c + left)
          × (ending d ≡ ending c)
          × Changed m m'
    unfolding print_cores
    print_cores_lem zero i count m c all = (
      m,
      c,
      ap (λ (n : ℕ). some (m, c, n)) (sym (add-zero count)),
      omega arith,
      refl,
      Changed-refl m,
    )
    print_cores_lem (suc left) i count m c all =
        let (m', d, e, one, quiet, changed) =
          print_named_lem (core_name i) m c (all i (omega arith)) in
        let (m'', d', e', more, quiet', changed') =
          print_cores_lem left (i + 1) (count + 1) m' d
            (λ j h. let (core, f) = all j (omega arith) in changed.keeps (core_name j) core f) in
        let sum : count + 1 + left ≡ count + suc left = omega arith in
        (
          m'',
          d',
          rw (e, print_cores) (rw (← sum) e'),
          omega arith,
          quiet' ∙ quiet,
          Changed-trans m m' m'' changed changed',
        )

    -- `print` in full: besides the lines, what it leaves alone.
    pub print_cpu_all :
        (blank : Bool) (o : Options) (cpu : Cpu) (c : Console)
        → Complete cpu.num_cores cpu.sampler.delta
        → (m : Cores) × (d : Console) × (n : ℕ) × (print_cpu blank o cpu c
            ≡ some (record cpu { sampler = record cpu.sampler { delta = m } }, (d, n)))
          × (printed d ≡ printed c + n)
          × (n ≡ 2 + (if o.condense_cpu then 0 else cpu.num_cores) + (if blank then 1 else 0))
          × (ending d ≡ ending c)
          × Changed cpu.sampler.delta m
    unfolding print_cpu
    print_cpu_all blank o cpu c (total, cores) =
        let shown : ℕ = if o.condense_cpu then 0 else cpu.num_cores in
        let (m, d, e, one, quiet, changed) =
          print_named_lem "CPU" cpu.sampler.delta (header c) total in
        let (m', d', e', more, quiet', changed') = print_cores_lem shown 0 2 m d (λ j h.
          let (core, f) = cores j (shown_le o cpu j h) in changed.keeps (core_name j) core f) in
        let (count, lines) = end_section_lem blank d' (2 + shown) in
        (
          m',
          (end_section blank (d', 2 + shown)).0,
          (end_section blank (d', 2 + shown)).1,
          rw (e, print_cpu) (rw e' refl),
          omega (arith, printed-header c),
          count,
          ending-end_section blank d' (2 + shown) ∙ quiet' ∙ quiet ∙ ending-header c,
          Changed-trans cpu.sampler.delta m m' changed changed',
        )

    -- With an object for the total and for each core, the display meets no null pointer, and it
    -- returns the number of the lines that it prints: the header and the total, one for each core
    -- unless they are condensed, and the blank line if there is one.
    pub print_cpu_lem :
        (blank : Bool) (o : Options) (cpu : Cpu) (c : Console)
        → Complete cpu.num_cores cpu.sampler.delta
        → (cpu' : Cpu) × (d : Console) × (n : ℕ) × (print_cpu blank o cpu c ≡ some (cpu', (d, n)))
          × (printed d ≡ printed c + n)
          × (n ≡ 2 + (if o.condense_cpu then 0 else cpu.num_cores) + (if blank then 1 else 0))
    print_cpu_lem blank o cpu c h =
        let (m, d, n, done, lines, count, _, _) = print_cpu_all blank o cpu c h in
        (record cpu { sampler = record cpu.sampler { delta = m } }, d, n, done, lines, count)
