-- ===== src/Cpu/Plain.antt =====
-- macos/CPU.cpp: a core's line leaves nothing switched on.
use cctop.Console.Output.{end_section}
use cctop.Prelude.{
  ℕ, zero, suc, ◌+◌, String, Bool, true, Option, none, some, List, [], ◌∷◌, ◌∙◌, if◌then◌else◌,
}
use cctop.Prelude.Int.{ℤ}
use cctop.Terminal.{Env}
use cctop.Map.{lookup, insert, string_key}
use cctop.Options.{Options}
use cctop.Console.{Console}
use cctop.Console.Pen.{Plain, IsPlain, pen-end_section, pen-newline, pen-mode_clear}
use cctop.Cpu.{Cpu, Naming}
use cctop.Cpu.Core.{CpuCore}
use cctop.Cpu.Print.{
  print_history, print_row, print_core, Cores, print_named, print_cores, print_cpu, header,
}

module _ ⦃env : Env⦄ where
  print_history-IsPlain : (h : List ℤ) (c : Console) → IsPlain c → IsPlain (print_history h c)
  unfolding print_history
  print_history-IsPlain [] c p = p
  print_history-IsPlain (i ∷ is) c p = print_history-IsPlain is _ (pen-mode_clear _)

  print_row-IsPlain : (core : CpuCore) (c : Console) → IsPlain (print_row core c)
  unfolding print_row
  print_row-IsPlain core c =
      pen-newline _ true ∙ print_history-IsPlain core.history _ (pen-mode_clear _)

  found-Plain :
      (name : String) (m : Cores) (c : Console) (found : Option CpuCore)
      → Plain
          (Cores × Console)
          (λ r. r.1)
          (elim found [
            | none ↦ none
            | some core ↦ some (insert name (print_core core c).0 m, (print_core core c).1)
          ])
  unfolding print_core
  found-Plain name m c none = tt
  found-Plain name m c (some core) = print_row-IsPlain _ c

  print_named-Plain :
      (name : String) (m : Cores) (c : Console)
      → Plain (Cores × Console) (λ r. r.1) (print_named name m c)
  unfolding print_named
  print_named-Plain name m c = found-Plain name m c (lookup name m)

  module _ ⦃names : Naming⦄ where
    next-Plain :
        (rest : Cores → Console → Option (Cores × Console × ℕ)) (found : Option (Cores × Console))
        → Plain (Cores × Console) (λ r. r.1) found
        → ((m : Cores) (c : Console)
            → IsPlain c
            → Plain (Cores × Console × ℕ) (λ r. r.1) (rest m c))
        → Plain
            (Cores × Console × ℕ)
            (λ r. r.1)
            (elim found [ none ↦ none | some (m', c') ↦ rest m' c' ])
    next-Plain rest none p h = tt
    next-Plain rest (some (m, c)) p h = h m c p

    print_cores-Plain :
        (left i count : ℕ) (m : Cores) (c : Console)
        → IsPlain c
        → Plain (Cores × Console × ℕ) (λ r. r.1) (print_cores left i count m c)
    unfolding print_cores
    print_cores-Plain zero i count m c h = h
    print_cores-Plain (suc left) i count m c h =
        next-Plain (print_cores left (i + 1) (count + 1)) (print_named (names.core_name i) m c)
          (print_named-Plain (names.core_name i) m c)
          (λ m' c' p. print_cores-Plain left (i + 1) (count + 1) m' c' p)

    cores_shown-Plain :
        (blank : Bool) (cpu : Cpu) (shown : Option (Cores × Console × ℕ))
        → Plain (Cores × Console × ℕ) (λ r. r.1) shown
        → Plain
            (Cpu × (Console × ℕ))
            (λ r. r.1.0)
            (elim shown [
              | none ↦ none
              | some (m', d, count) ↦ some (
                record cpu { sampler = record cpu.sampler { delta = m' } },
                end_section blank (d, count),
              )
            ])
    cores_shown-Plain blank cpu none h = tt
    cores_shown-Plain blank cpu (some (m, c, n)) h = pen-end_section blank c n ∙ h

    all_shown-Plain :
        (blank : Bool) (o : Options) (cpu : Cpu) (found : Option (Cores × Console))
        → Plain (Cores × Console) (λ r. r.1) found
        → Plain
            (Cpu × (Console × ℕ))
            (λ r. r.1.0)
            (elim found [
              | none ↦ none
              | some (m, c') ↦
                  elim (print_cores (if o.condense_cpu then 0 else cpu.num_cores) 0 2 m c') [
                    | none ↦ none
                    | some (m', d, count) ↦ some (
                      record cpu { sampler = record cpu.sampler { delta = m' } },
                      end_section blank (d, count),
                    )
                  ]
            ])
    all_shown-Plain blank o cpu none h = tt
    all_shown-Plain blank o cpu (some (m, c)) h =
        cores_shown-Plain blank cpu _ (print_cores-Plain _ 0 2 m c h)

    -- Unless it meets a null pointer, `print` leaves nothing switched on.
    pub print_cpu-Plain :
        (blank : Bool) (o : Options) (cpu : Cpu) (c : Console)
        → Plain (Cpu × (Console × ℕ)) (λ r. r.1.0) (print_cpu blank o cpu c)
    unfolding print_cpu
    print_cpu-Plain blank o cpu c =
        all_shown-Plain blank o cpu _ (print_named-Plain "CPU" cpu.sampler.delta (header c))
