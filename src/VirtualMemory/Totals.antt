-- ===== src/VirtualMemory/Totals.antt =====
-- macos/VirtualMemory.cpp: the differences of a run.
use cctop.Prelude.{ℕ, ◌<◌, List, [], ◌∷◌, ◌≡◌, refl, arith}
use cctop.Prelude.Words.{u64_mod, add64, sub64}
use cctop.Memory.{MemoryStats}
use cctop.VirtualMemory.{VmStats, VirtualMemory, diff, copy, read, update}

pub data Counter : Type 0 where
  of_pageins of_pageouts of_swapins of_swapouts : Counter

abbrev pub count : Counter → VmStats → ℕ
count of_pageins s = s.pageins
count of_pageouts s = s.pageouts
count of_swapins s = s.swapins
count of_swapouts s = s.swapouts

-- The object after an update with each of the readings.
abbrev pub updates : List MemoryStats → VirtualMemory → VirtualMemory
updates [] v = v
updates (m ∷ ms) v = updates ms (update m v)

-- The sum of the differences that these updates show, in words of 64 bits.
abbrev pub total : Counter → List MemoryStats → VirtualMemory → ℕ
total k [] v = 0
total k (m ∷ ms) v = add64 (count k (update m v).delta) (total k ms (update m v))

-- The counters are words of 64 bits.
abbrev pub AreWords : Counter → List MemoryStats → Type 0
AreWords k [] = Unit
AreWords k (m ∷ ms) = (count k (read m) < u64_mod) × AreWords k ms

count-diff : (k : Counter) (a b : VmStats) → count k (diff a b) ≡ sub64 (count k a) (count k b)
unfolding diff
count-diff of_pageins a b = refl
count-diff of_pageouts a b = refl
count-diff of_swapins a b = refl
count-diff of_swapouts a b = refl

sub64_self : (a : ℕ) → a < u64_mod → 0 ≡ sub64 a a
unfolding sub64
sub64_self a h = omega arith

sub64_chain :
    (a b c : ℕ)
    → a < u64_mod
    → b < u64_mod
    → c < u64_mod
    → add64 (sub64 b a) (sub64 c b) ≡ sub64 c a
unfolding sub64 add64
sub64_chain a b c x y z = omega arith

updates-word :
    (k : Counter) (ms : List MemoryStats) (v : VirtualMemory)
    → count k v.current < u64_mod
    → AreWords k ms
    → count k (updates ms v).current < u64_mod
unfolding update
updates-word k [] v h w = h
updates-word k (m ∷ ms) v h (x, w) = updates-word k ms (update m v) x w

delta_lem :
    (k : Counter) (m : MemoryStats) (v : VirtualMemory)
    → count k (update m v).delta ≡ sub64 (count k (update m v).current) (count k v.current)
unfolding update copy
delta_lem k m v = count-diff k (read m) v.current

-- From any state, with counters of 64 bits that may wrap: the differences that the updates of a run
-- show add up, modulo 2^64, to what the counter has moved on by since the start of the run.
pub deltas_add_up :
    (k : Counter) (ms : List MemoryStats) (v : VirtualMemory)
    → count k v.current < u64_mod
    → AreWords k ms
    → total k ms v ≡ sub64 (count k (updates ms v).current) (count k v.current)
unfolding update
deltas_add_up k [] v h w = sub64_self (count k v.current) h
deltas_add_up k (m ∷ ms) v h (x, w) =
    let next = update m v in
    rw (delta_lem k m v, deltas_add_up k ms next x w)
      (sub64_chain (count k v.current) (count k next.current) (count k (updates ms next).current) h
        x (updates-word k ms next x w))
