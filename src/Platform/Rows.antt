-- ===== src/Platform/Rows.antt =====
-- macos/Platform.cpp: `Platform::print`.
use cctop.Platform.Sources.{get_uptime}
use cctop.Prelude.{
  ℕ, ◌+◌, ◌*◌, ◌<◌, String, Bool, [], ◌≡◌, arith, if◌then◌else◌, ◌%◌, ◌∷◌, ◌≤◌, ◌⊎◌, inl, inr, some,
}
use cctop.Prelude.Words.{sub64, u64_mod, u16_mod, u32_mod}
use cctop.Terminal.{Env}
use cctop.Console.{Console, printed}
use cctop.Console.Lines.{line_laws, printed-print, printed-inverseln, end_section_lem}
use cctop.Console.Output.{inverseln}
use cctop.Platform.{
  Platform, BatteryInfo, split_uptime, print_uptime, print_time, print_battery, print_platform,
  hours_remaining, real, title_fill,
}

-- An uptime of 64 bits in days, hours and minutes: they make it up but for the seconds, which are
-- below 60, and are in their ranges.
split_uptime_lem :
    (uptime : ℕ)
    → uptime < u64_mod
    → let (days, (hours, minutes)) = split_uptime uptime in
      (seconds : ℕ) × (seconds < 60)
      × (uptime ≡ days * 86400 + hours * 3600 + minutes * 60 + seconds)
      × (hours < 24)
      × (minutes < 60)
unfolding split_uptime sub64
split_uptime_lem uptime h = (uptime % 60, omega arith, omega arith, omega arith, omega arith)

-- As long as the clock is not before the time of the boot, `print` shows the time since the boot: days,
-- hours below 24 and minutes below 60 make it up but for less than a minute.
pub shown_uptime :
    (boot now : ℕ)
    → boot ≤ now
    → now < u64_mod
    → let (days, (hours, minutes)) = split_uptime (get_uptime (some boot) now) in
      (seconds : ℕ) × (seconds < 60)
      × (now ≡ boot + days * 86400 + hours * 3600 + minutes * 60 + seconds)
      × (hours < 24)
      × (minutes < 60)
unfolding get_uptime sub64
shown_uptime boot now h small =
    let (seconds, few, sum, day, hour) =
      split_uptime_lem (get_uptime (some boot) now) (omega arith) in
    (seconds, few, omega (arith, sum), day, hour)

le_or_lt : (a b : ℕ) → (a ≤ b) ⊎ (b < a)
le_or_lt a b = ground arith

-- For a width of 16 bits and texts of sizes below 2^32 and 1000: if the two texts and two columns
-- fit the width, the spaces fill the line but for these. If not, `fill` wraps around, and there
-- are more spaces than the `width + 1` bytes of the buffer.
pub title_fill_lem :
    (width out s : ℕ)
    → width < u16_mod
    → out < u32_mod
    → s < 1000
    → let fill = title_fill width out s in
      ((out + s + 2 ≤ width) × (out + fill + s + 2 ≡ width))
      ⊎ ((width < out + s + 2) × (width + 1 < fill))
unfolding title_fill sub64
title_fill_lem width out s hw ho hs = elim (le_or_lt (out + s + 2) width) [
  | inl fits ↦ inl (fits, omega arith)
  | inr long ↦ inr (long, omega arith)
]

module _ ⦃env : Env⦄ where
  printed-print_uptime : (q : Platform) (c : Console) → printed (print_uptime q c) ≡ printed c + 1
  unfolding print_uptime
  printed-print_uptime q c = simp line_laws (omega arith)

  printed-print_time : (b : BatteryInfo) (c : Console) → printed (print_time b c) ≡ printed c
  unfolding print_time
  printed-print_time b c = ground (
    arith,
    printed-print c " %.1f hours remaining" (real (hours_remaining b) ∷ []),
    printed-print c " Caluclating time remaining" [],
  )

  printed-print_battery :
      (b : BatteryInfo) (c : Console) → printed (print_battery b c) ≡ printed c + 1
  unfolding print_battery
  printed-print_battery b c = simp (line_laws, printed-print_time) (omega arith)

  -- `print` returns one less than the number of the lines that it prints.
  pub print_platform_lem :
      (blank : Bool) (out : String) (uptime : ℕ) (q : Platform) (c : Console)
      → let (q', (d, n)) = print_platform blank out uptime q c in
        (printed d ≡ printed c + n + 1) × (n ≡ 2 + (if blank then 1 else 0))
  unfolding print_platform
  print_platform_lem blank out uptime q c =
      let q' = record q { uptime = uptime } in
      let c1 = inverseln out [] c in
      let c2 = print_uptime q' c1 in
      omega (
        arith,
        end_section_lem blank (print_battery q'.battery_info c2) 2,
        printed-inverseln out [] c,
        printed-print_uptime q' c1,
        printed-print_battery q'.battery_info c2,
      )
