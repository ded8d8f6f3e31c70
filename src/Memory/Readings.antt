-- ===== src/Memory/Readings.antt =====
-- macos/Memory.cpp: the readings.
use cctop.Prelude.{ℕ, ◌+◌, ◌*◌, ◌<◌, List, [], ◌∷◌, ◌≡◌, refl, ap, ◌∙◌, arith}
use native.Mathlib.Nat.{mul-add, mul_comm}
use cctop.Prelude.Words.{u32_mod, u64_mod, sub64, mul64}
use cctop.Memory.{Memory, VmStat, all_pages, used_pages, read, set_delta, update, start}

-- The updates of a run, from the first.
unfoldable pub updates : List VmStat → Memory → Memory
updates [] m = m
updates (v ∷ vs) m = updates vs (update v m)

updates_keep :
    (vs : List VmStat) (m : Memory)
    → ((updates vs m).last ≡ m.last) × ((updates vs m).page_size ≡ m.page_size)
unfolding updates update
updates_keep [] m = (refl, refl)
updates_keep (v ∷ vs) m = updates_keep vs (update v m)

-- However many updates there have been, the differences are those to the reading of the constructor.
pub deltas_since_start :
    (page_size : ℕ) (first second v : VmStat) (vs : List VmStat)
    → let m = update v (updates vs (start page_size first second)) in
      (m.delta.pageins ≡ sub64 v.pageins first.pageins)
      × (m.delta.pageouts ≡ sub64 v.pageouts first.pageouts)
      × (m.delta.swapins ≡ sub64 v.swapins first.swapins)
      × (m.delta.swapouts ≡ sub64 v.swapouts first.swapouts)
unfolding update set_delta read start
deltas_since_start page_size first second v vs =
    let (last, _) = updates_keep vs (start page_size first second) in
    (
      ap (λ s. sub64 v.pageins s.pageins) last,
      ap (λ s. sub64 v.pageouts s.pageouts) last,
      ap (λ s. sub64 v.swapins s.swapins) last,
      ap (λ s. sub64 v.swapouts s.swapouts) last,
    )

bytes_add_up :
    (p u f s : ℕ)
    → s ≡ u + f
    → p * s < u64_mod
    → (mul64 s p ≡ mul64 p u + p * f) × (sub64 (mul64 s p) (mul64 p u) ≡ p * f)
unfolding mul64 sub64
bytes_add_up p u f s e h =
    let split : p * s ≡ p * u + p * f = ap (λ (n : ℕ). p * n) e ∙ mul-add p u f in
    let swap : s * p ≡ p * s = mul_comm s p in omega (arith, split, swap)

-- If the pages and the bytes fit their words, the used and the free pages make up the memory, and the
-- free memory is that of the free pages, less the number of the inactive ones, modulo 2^64.
pub memory_adds_up :
    (page_size : ℕ) (v : VmStat)
    → v.wire_count + v.active_count + v.inactive_count + v.free_count + v.compressor_page_count
      < u32_mod
    → page_size
        * (v.wire_count + v.active_count + v.inactive_count + v.free_count
            + v.compressor_page_count)
      < u64_mod
    → let s = read page_size v in
      (s.memory_size ≡ s.memory_used + page_size * v.free_count)
      × (s.memory_free ≡ sub64 (page_size * v.free_count) v.inactive_count)
unfolding read all_pages used_pages
memory_adds_up page_size v pages bytes =
    let all : all_pages v
        ≡ v.wire_count + v.active_count + v.inactive_count + v.free_count
          + v.compressor_page_count =
      omega arith in
    let total : all_pages v ≡ used_pages v + v.free_count = omega arith in
    let (size, free) =
      bytes_add_up page_size (used_pages v) v.free_count (all_pages v) total (rw all bytes) in
    (size, rw free refl)
