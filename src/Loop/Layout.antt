-- ===== src/Loop/Layout.antt =====
-- main.cpp: how the height of the window condenses the display.
use cctop.Prelude.{ℕ, ◌≡◌, arith, ltb, ◌||◌, leb, ◌&&◌}
use cctop.Options.{Options}
use cctop.Loop.{layout}

-- The blank lines go if the user asks for that, below 35 rows, and from 40 rows to 44; the cores
-- are condensed if the user asks for that, and below 40 rows. From 35 rows to 39 the blank lines
-- stay unless the user asks.
layout_lem :
    (height : ℕ) (o : Options)
    → let (condense, o') = layout height o in
      (condense ≡ (o.condense_main || ltb height 35 || (leb 40 height && ltb height 45)))
      × (o'.condense_cpu ≡ (o.condense_cpu_state || ltb height 40))
unfolding layout
layout_lem height o = ground arith
