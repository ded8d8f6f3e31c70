-- ===== src/Console/Gauge.antt =====
-- lib/Console.cpp: the gauge.
use cctop.Prelude.{ℕ, ◌-◌, [], ◌∷◌, ◌▷◌, repeat, if◌then◌else◌}
use cctop.Prelude.Int.{ℤ, pos, pos_part}
use cctop.Terminal.{Double, Env, lit, of_int, mul, div, chr}
use cctop.Console.{Console, print, wprint, mode_clear}
use cctop.Console.Modes.{fg_red, fg_yellow, fg_green}

-- The parameter `style` of the source: 0, -1 and 1.
pub data Style : Type 0 where
  plain empty full : Style

module _ ⦃env : Env⦄ where
  -- `toFill`
  unfoldable pub to_fill : ℕ → Double → ℤ
  to_fill width pct = env.to_int (div (mul (of_int (pos width)) pct) (lit 100 0))

  -- The `switch` on the style. `pct > x` is `x < pct`.
  unfoldable pub gauge_color : Style → Double → Console → Console
  gauge_color plain pct c = c
  gauge_color empty pct c =
      if env.lt pct (lit 2 1)
      then fg_red c
      else if env.lt pct (lit 5 1)
      then fg_yellow c
      else fg_green c
  gauge_color full pct c =
      if env.lt (lit 5 1) pct
      then fg_green c
      else if env.lt (lit 2 1) pct
      then fg_yellow c
      else fg_red c

  -- The first loop runs `i` from 0 to `toFill`, the second from there to the width.
  unfoldable pub gauge : ℕ → Double → Style → Console → Console
  gauge width pct style c =
      let filled = pos_part (to_fill width pct) in
      c
      ▷ print "[" []
      ▷ gauge_color style pct
      ▷ repeat filled (wprint "%lc" (chr 0x25a0 ∷ []))
      ▷ mode_clear
      ▷ repeat (width - filled) (print " " [])
      ▷ print "]" []
