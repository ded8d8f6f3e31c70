-- ===== src/Console/Units.antt =====
-- lib/Console.cpp: the unit that `humanSize` chooses.
use cctop.Prelude.{ℕ, ◌+◌, ◌-◌, ◌/◌, ◌^◌, ◌≤◌, ◌<◌, ◌≡◌, arith, ◌⊎◌}
use cctop.Terminal.{lit, of_u64, div}
use cctop.Console.Size.{scaled, size_loop}

-- Above 1024 bytes the unit is the largest of KB, MB, GB and TB that the count reaches, and the
-- number printed is the count in the unit below, cut to a whole number, over 1024.
pub scaled_lem :
    (bytes : ℕ)
    → 1024 < bytes
    → let (i, dbl) = scaled bytes in
      (1 ≤ i)
      × (i ≤ 4)
      × (1024 ^ i ≤ bytes)
      × ((i ≡ 4) ⊎ (bytes < 1024 ^ (i + 1)))
      × (dbl ≡ div (of_u64 (bytes / 1024 ^ (i - 1))) (lit 1024 0))
unfolding scaled size_loop
scaled_lem bytes h = ground arith
