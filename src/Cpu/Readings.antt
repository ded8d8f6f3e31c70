-- ===== src/Cpu/Readings.antt =====
-- macos/CPU.cpp: what `CPU::read` leaves in the map.
use cctop.Prelude.{
  ℕ, zero, suc, ◌+◌, ◌%◌, ◌<◌, ◌≡◌, ◌≢◌, refl, sym, ◌∙◌, String, false, some, List, [], ◌∷◌, arith,
  get_elem?, Bool-cases, inl, inr,
}
use native.Mathlib.Nat.{add-zero, zero-add}
use cctop.Prelude.Words.{add64, u64_mod}
use cctop.Map.{string_key, lookup, Distinct}
use cctop.Sampler.{Named, obtain, modify}
use cctop.Sampler.Interval.{IsReading}
use cctop.Sampler.Modify.{lookup-modify, modify-IsReading, IsReading-trans, IsReading-refl}
use cctop.Cpu.{Naming, Ticks, set_ticks, add_ticks, no_ticks, read_core, read_cores, read}
use cctop.Cpu.Core.{CpuCore, core_stat}
use cctop.Cpu.Print.{Cores}

-- A comparison of different names.
pub ne-eq : (a b : String) → a ≢ b → string_key.eq a b ≡ false
ne-eq a b h = elim (Bool-cases (string_key.eq a b)) [
  | inl e ↦ absurd (h ((string_key.eq_iff a b).0 e))
  | inr e ↦ e
]

-- The counters of a core are those that the system returned.
pub record HasTicks (t : Ticks) (c : CpuCore) : Type 0 where
  pub user : c.user ≡ t.user
  pub system : c.system ≡ t.system
  pub idle : c.idle ≡ t.idle
  pub nice : c.nice ≡ t.nice

-- The object of the total after the cores have been added to it.
unfoldable pub total_of : CpuCore → List Ticks → CpuCore
total_of c [] = c
total_of c (t ∷ ts) = total_of (add_ticks t c) ts

module _ ⦃names : Naming⦄ where
  open names use {core_name, core_name_inj, core_name-ne-cpu}

  read_core-IsReading :
      (i : ℕ) (t : Ticks) (m : Cores) → Named m → Distinct m → IsReading m (read_core i t m)
  unfolding read_core set_ticks add_ticks
  read_core-IsReading i t m n d =
      let one = modify-IsReading (core_name i) (set_ticks t) m (λ v. refl) n d in
      IsReading-trans m _ _ one
        (modify-IsReading "CPU" (add_ticks t) _ (λ v. refl) one.named one.distinct)

  read_cores-IsReading :
      (i : ℕ) (ts : List Ticks) (m : Cores) → Named m → Distinct m → IsReading m (read_cores i ts m)
  unfolding read_cores
  read_cores-IsReading i [] m n d = IsReading-refl m n d
  read_cores-IsReading i (t ∷ ts) m n d =
      let one = read_core-IsReading i t m n d in
      IsReading-trans m (read_core i t m) _ one
        (read_cores-IsReading (i + 1) ts (read_core i t m) one.named one.distinct)

  -- `read` keeps every name and leaves each object under its own.
  pub read-IsReading :
      (ts : List Ticks) (m : Cores) → Named m → Distinct m → IsReading m (read ts m)
  unfolding read set_ticks
  read-IsReading ts m n d =
      let one = modify-IsReading "CPU" (set_ticks no_ticks) m (λ v. refl) n d in
      IsReading-trans m _ _ one (read_cores-IsReading 0 ts _ one.named one.distinct)

  -- The round for core `i` sets that core, adds to the total, and leaves the other cores.
  lookup-read_core_self :
      (i : ℕ) (t : Ticks) (m : Cores)
      → lookup (core_name i) (read_core i t m) ≡ some (set_ticks t (obtain (core_name i) m))
  unfolding read_core
  lookup-read_core_self i t m =
      let cpu = ne-eq "CPU" (core_name i) (λ e. core_name-ne-cpu i (sym e)) in
      lookup-modify "CPU" (core_name i) _ _
      ∙ rw cpu (
          lookup-modify (core_name i) (core_name i) _ m
          ∙ rw ((string_key.eq_iff (core_name i) (core_name i)).1 refl) refl)

  lookup-read_core_ne :
      (i j : ℕ) (t : Ticks) (m : Cores)
      → i ≢ j
      → lookup (core_name j) (read_core i t m) ≡ lookup (core_name j) m
  unfolding read_core
  lookup-read_core_ne i j t m h =
      let cpu = ne-eq "CPU" (core_name j) (λ e. core_name-ne-cpu j (sym e)) in
      let core = ne-eq (core_name i) (core_name j) (λ e. h (core_name_inj i j e)) in
      lookup-modify "CPU" (core_name j) _ _
      ∙ rw cpu (lookup-modify (core_name i) (core_name j) _ m ∙ rw core refl)

  lookup-read_core_cpu :
      (i : ℕ) (t : Ticks) (m : Cores) (c : CpuCore)
      → lookup "CPU" m ≡ some c
      → lookup "CPU" (read_core i t m) ≡ some (add_ticks t c)
  unfolding read_core obtain
  lookup-read_core_cpu i t m c e =
      let core = ne-eq (core_name i) "CPU" (core_name-ne-cpu i) in
      let kept : lookup "CPU" (modify (core_name i) (set_ticks t) m) ≡ some c =
        lookup-modify (core_name i) "CPU" (set_ticks t) m ∙ rw core e in
      lookup-modify "CPU" "CPU" (add_ticks t) _ ∙ rw kept refl

  -- The rounds from core `i` on leave the cores before it.
  read_cores_before :
      (i j : ℕ) (ts : List Ticks) (m : Cores)
      → j < i
      → lookup (core_name j) (read_cores i ts m) ≡ lookup (core_name j) m
  unfolding read_cores
  read_cores_before i j [] m h = refl
  read_cores_before i j (t ∷ ts) m h =
      read_cores_before (i + 1) j ts (read_core i t m) (omega arith)
      ∙ lookup-read_core_ne i j t m (λ e. absurd (omega (arith, e)))

  read_cores_core :
      (i j : ℕ) (ts : List Ticks) (m : Cores) (t : Ticks)
      → get_elem? ts j ≡ some t
      → (c : CpuCore) × (lookup (core_name (i + j)) (read_cores i ts m) ≡ some c) × HasTicks t c
  unfolding read_cores set_ticks
  read_cores_core i j [] m t e = cc
  read_cores_core i zero (u ∷ ts) m t e = (
    set_ticks u (obtain (core_name i) m),
    rw add-zero (
        read_cores_before (i + 1) i ts (read_core i u m) (omega arith)
        ∙ lookup-read_core_self i u m),
    ground arith,
  )
  read_cores_core i (suc j) (u ∷ ts) m t e =
      let same : i + 1 + j ≡ i + suc j = omega arith in
      rw (← same) (read_cores_core (i + 1) j ts (read_core i u m) t e)

  read_cores_cpu :
      (i : ℕ) (ts : List Ticks) (m : Cores) (c : CpuCore)
      → lookup "CPU" m ≡ some c
      → lookup "CPU" (read_cores i ts m) ≡ some (total_of c ts)
  unfolding read_cores total_of
  read_cores_cpu i [] m c e = e
  read_cores_cpu i (t ∷ ts) m c e =
      read_cores_cpu (i + 1) ts (read_core i t m) (add_ticks t c) (lookup-read_core_cpu i t m c e)

  -- After `read` each core has the ticks that the system returned for it.
  pub read_core_ticks :
      (ts : List Ticks) (m : Cores) (j : ℕ) (t : Ticks)
      → get_elem? ts j ≡ some t
      → (c : CpuCore) × (lookup (core_name j) (read ts m) ≡ some c) × HasTicks t c
  unfolding read
  read_core_ticks ts m j t e =
      rw zero-add at (read_cores_core 0 j ts (modify "CPU" (set_ticks no_ticks) m) t e)

  -- The total is the sum over the cores, from nothing.
  pub read_total :
      (ts : List Ticks) (m : Cores)
      → lookup "CPU" (read ts m) ≡ some (total_of (set_ticks no_ticks (obtain "CPU" m)) ts)
  unfolding read
  read_total ts m = read_cores_cpu 0 ts _ _ (lookup-modify "CPU" "CPU" (set_ticks no_ticks) m)

-- Sums of a counter over the cores.
abbrev pub sum_of : (Ticks → ℕ) → List Ticks → ℕ
sum_of f [] = 0
sum_of f (t ∷ ts) = f t + sum_of f ts

-- If the counters of a total start below 2^64, adding the ticks of the cores to it leaves the
-- sums, modulo 2^64.
total_of_sums :
    (ts : List Ticks) (c : CpuCore)
    → c.user < u64_mod
    → c.system < u64_mod
    → c.idle < u64_mod
    → c.nice < u64_mod
    → let total = total_of c ts in
      (total.user ≡ (c.user + sum_of (λ t. t.user) ts) % u64_mod)
      × (total.system ≡ (c.system + sum_of (λ t. t.system) ts) % u64_mod)
      × (total.idle ≡ (c.idle + sum_of (λ t. t.idle) ts) % u64_mod)
      × (total.nice ≡ (c.nice + sum_of (λ t. t.nice) ts) % u64_mod)
unfolding total_of add_ticks add64
total_of_sums [] c u s i n = omega arith
total_of_sums (t ∷ ts) c u s i n = omega (
  arith,
  total_of_sums ts (add_ticks t c) (omega arith) (omega arith) (omega arith) (omega arith),
)
