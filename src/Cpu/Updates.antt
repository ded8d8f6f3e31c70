-- ===== src/Cpu/Updates.antt =====
-- macos/CPU.cpp: the constructor and `update` over the life of the program.
use cctop.Prelude.{
  ℕ, zero, suc, ◌<◌, ◌≡◌, refl, sym, ap, ◌∙◌, some, List, [], ◌∷◌, arith, length, get_elem?,
  Bool-cases, inl, inr,
}
use cctop.Prelude.Words.{sub64, u16_mod, to_u16}
use mathlib.Core.Option.{some-injective}
use cctop.Map.{string_key, lookup, insert}
use cctop.Map.Laws.{lookup-insert}
use cctop.Sampler.{Sampler, copy}
use cctop.Sampler.Copy.{insert-Named, lookup-Named}
use cctop.Sampler.Diff.{Within}
use cctop.Sampler.Interval
use cctop.Sampler.Interval.{advance, advance_lem, Advances, Within-copy, fresh-IsValid}
use cctop.Cpu.{Cpu, Naming, Ticks, per_core, average, update, start, read, sum_ticks}
use cctop.Cpu.Core.{CpuCore, core_stat, diff}
use cctop.Cpu.Print.{Cores}
use cctop.Cpu.Rows.{Has, Complete, Within-insert}
use cctop.Cpu.Readings.{ne-eq, read-IsReading, read_core_ticks, read_total}

-- `update` can run, and the display that follows finds all its objects.
pub record IsValid ⦃names : Naming⦄ (cpu : Cpu) : Type 0 where
  pub sampled : Interval.IsValid cpu.sampler
  pub complete : Complete cpu.num_cores cpu.sampler.delta
  pub some_core : 0 < cpu.num_cores

module _ ⦃names : Naming⦄ where
  open names use {core_name, core_name-ne-cpu}

  -- Dividing the totals changes no other entry.
  average_lem :
      (n : ℕ) (delta : Cores)
      → 0 < n
      → Complete n delta
      → (c : CpuCore) × (lookup "CPU" delta ≡ some c)
        × (average n delta ≡ some (insert "CPU" (per_core n c) delta))
  unfolding average
  average_lem zero delta h k = absurd (omega arith)
  average_lem (suc n) delta h ((c, e), cores) = (c, e, rw (e, average) refl)

  -- What `update` does for a core: its counters are the differences of the two readings.
  abbrev pub CoreShows : Cpu → List Ticks → Cpu → ℕ → Type 0
  CoreShows cpu ts cpu' i =
      (v : CpuCore) × (n : CpuCore) × (o : CpuCore) × (lookup (core_name i) cpu.sampler.delta
        ≡ some v)
      × (lookup (core_name i) (read ts cpu.sampler.current) ≡ some n)
      × (lookup (core_name i) cpu.sampler.current ≡ some o)
      × (lookup (core_name i) cpu'.sampler.delta ≡ some (diff v n o))

  pub Complete-Within : (n : ℕ) (m m' : Cores) → Within m m' → Complete n m → Complete n m'
  Complete-Within n m m' w ((c, e), cores) =
      (w "CPU" c e, λ i h. let (d, f) = cores i h in w (core_name i) d f)

  averaged-IsValid :
      (n : ℕ) (q : Sampler CpuCore) (c : CpuCore)
      → Interval.IsValid q
      → lookup "CPU" q.delta ≡ some c
      → Interval.IsValid (record q { delta = insert "CPU" (per_core n c) q.delta })
  unfolding per_core
  averaged-IsValid n q c v e = record {
    current_named = v.current_named;
    current_distinct = v.current_distinct;
    last_named = v.last_named;
    last_distinct = v.last_distinct;
    delta_named =
        insert-Named "CPU" _ q.delta (lookup-Named "CPU" q.delta c v.delta_named e) v.delta_named;
    delta_within = λ k u f. elim (Bool-cases (string_key.eq "CPU" k)) [
      | inl same ↦ rw ((string_key.eq_iff "CPU" k).0 same) at (v.delta_within "CPU" c e)
      | inr other ↦ v.delta_within k u (rw other at (sym (lookup-insert "CPU" k _ q.delta) ∙ f))
    ];
  }

  shows_core :
      (cpu : Cpu) (ts : List Ticks) (q : Sampler CpuCore) (c : CpuCore) (i : ℕ)
      → Advances cpu.sampler (read ts cpu.sampler.current) q
      → Has (core_name i) cpu.sampler.delta
      → CoreShows cpu ts
          (record cpu {
            sampler = record q { delta = insert "CPU" (per_core cpu.num_cores c) q.delta };
            total_ticks = sum_ticks 0 ts;
          })
          i
  shows_core cpu ts q c i adv (v, e) =
      let (n, o, en, eo, shown) = adv.shows (core_name i) v e in
      let other = ne-eq "CPU" (core_name i) (λ x. core_name-ne-cpu i (sym x)) in
      (v, n, o, e, en, eo, lookup-insert "CPU" (core_name i) _ q.delta ∙ rw other shown)

  -- From a valid state, `update` meets no null pointer and no division by 0, keeps the state valid,
  -- and leaves under each core the differences of its counters in the two latest readings.
  pub update_lem :
      (ts : List Ticks) (cpu : Cpu)
      → IsValid cpu
      → (cpu' : Cpu) × (update ts cpu ≡ some cpu')
        × IsValid cpu'
        × (cpu'.num_cores ≡ cpu.num_cores)
        × (cpu'.sampler.current ≡ read ts cpu.sampler.current)
        × ((i : ℕ) → i < cpu.num_cores → CoreShows cpu ts cpu' i)
  unfolding update
  update_lem ts cpu h =
      let reading = read ts cpu.sampler.current in
      let (q, done, adv) = advance_lem cpu.sampler reading h.sampled (
        read-IsReading ts cpu.sampler.current h.sampled.current_named h.sampled.current_distinct) in
      let keeps : Within cpu.sampler.delta q.delta =
        λ k v e. let (n, o, _, _, shown) = adv.shows k v e in (diff v n o, shown) in
      let complete = Complete-Within cpu.num_cores cpu.sampler.delta q.delta keeps h.complete in
      let (c, e, averaged) = average_lem cpu.num_cores q.delta h.some_core complete in
      let delta = insert "CPU" (per_core cpu.num_cores c) q.delta in
      (
        record cpu { sampler = record q { delta = delta }; total_ticks = sum_ticks 0 ts },
        rw (done, update) (rw averaged refl),
        record {
          sampled = averaged-IsValid cpu.num_cores q c adv.valid e;
          complete =
              Complete-Within cpu.num_cores q.delta delta (Within-insert "CPU" _ q.delta) complete;
          some_core = h.some_core;
        },
        refl,
        adv.current,
        λ i less. shows_core cpu ts q c i adv (h.complete.1 i less),
      )

  -- If the state is valid and its latest reading was that of the ticks `before`, an update with
  -- the ticks `ts` succeeds, and in the difference of a core that both have each counter is how
  -- far the system's counter moved from the one to the other, modulo 2^64.
  pub update_shows_ticks :
      (before ts : List Ticks) (m : Cores) (cpu : Cpu) (i : ℕ) (t t' : Ticks)
      → IsValid cpu
      → cpu.sampler.current ≡ read before m
      → i < cpu.num_cores
      → get_elem? before i ≡ some t
      → get_elem? ts i ≡ some t'
      → (cpu' : Cpu) × (c : CpuCore) × (update ts cpu ≡ some cpu')
        × (lookup (core_name i) cpu'.sampler.delta ≡ some c)
        × (c.user ≡ sub64 t'.user t.user)
        × (c.system ≡ sub64 t'.system t.system)
        × (c.idle ≡ sub64 t'.idle t.idle)
        × (c.nice ≡ sub64 t'.nice t.nice)
  unfolding diff
  update_shows_ticks before ts m cpu i t t' h last less e e' =
      let (cpu', done, _, _, _, shows) = update_lem ts cpu h in
      let (v, n, o, ev, en, eo, shown) = shows i less in
      let (a, ea, old) = read_core_ticks before m i t e in
      let (b, eb, new) = read_core_ticks ts cpu.sampler.current i t' e' in
      let is_old : o ≡ a = some-injective o a (sym eo ∙ ap (lookup (core_name i)) last ∙ ea) in
      let is_new : n ≡ b = some-injective n b (sym en ∙ eb) in
      (
        cpu',
        diff v n o,
        done,
        shown,
        rw (is_old, is_new, old.user, new.user) refl,
        rw (is_old, is_new, old.system, new.system) refl,
        rw (is_old, is_new, old.idle, new.idle) refl,
        rw (is_old, is_new, old.nice, new.nice) refl,
      )

  get_elem?_lt : (i : ℕ) (ts : List Ticks) → i < length ts → (t : Ticks) × (get_elem? ts i ≡ some t)
  get_elem?_lt i [] h = elim h [ ]
  get_elem?_lt zero (t ∷ ts) h = (t, refl)
  get_elem?_lt (suc i) (t ∷ ts) h = get_elem?_lt i ts (omega arith)

  read-Complete : (ts : List Ticks) (m : Cores) → Complete (length ts) (read ts m)
  read-Complete ts m = (
    (_, read_total ts m),
    λ i h. let (t, e) = get_elem?_lt i ts h in let (c, f, _) = read_core_ticks ts m i t e in (c, f),
  )

  -- The constructor meets no null pointer, and leaves a valid state with as many cores as the
  -- system has, if there are from 1 to 65535.
  pub start-IsValid :
      (first second : List Ticks)
      → 0 < length first
      → length first < u16_mod
      → (cpu : Cpu) × (start first second ≡ some cpu) × IsValid cpu × (cpu.num_cores ≡ length first)
  unfolding start
  start-IsValid first second pos small =
      let r = read-IsReading first [] tt tt in
      let current = read first [] in
      let count : to_u16 (length first) ≡ length first = omega arith in
      let initial : Cpu = record {
        sampler = record { last = copy [] current; current = current; delta = copy [] current };
        total_ticks = sum_ticks 0 first;
        num_cores = to_u16 (length first);
      } in
      let valid : IsValid initial = record {
        sampled = fresh-IsValid current r.named r.distinct;
        complete = rw count (
            Complete-Within (length first) current (copy [] current)
              (Within-copy [] current r.distinct r.named) (read-Complete first []));
        some_core = omega arith;
      } in
      let (cpu, done, v, same, _, _) = update_lem second initial valid in
      (cpu, done, v, same ∙ count)
