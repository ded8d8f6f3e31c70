-- ===== src/Console/Output.antt =====
-- lib/Console.cpp: whole lines and framed windows.
use cctop.Prelude.{
  ℕ, zero, suc, ◌+◌, ◌-◌, String, true, false, List, [], ◌∷◌, ◌▷◌, repeat, if◌then◌else◌, Bool,
}
use cctop.Terminal.{Arg, Env, chr, str}
use cctop.Console.{Console, text, move_to, clear_eol, newline, print, wprint}
use cctop.Console.Modes.{mode_inverse}

module _ ⦃env : Env⦄ where
  -- The text in reverse video, filled up to one cell short of the width. If the text is longer, the
  -- loop does not run.
  unfoldable pub inverseln : String → List Arg → Console → Console
  inverseln format args c =
      c
      ▷ mode_inverse true
      ▷ print format args
      ▷ repeat (c.width - env.strlen (text format args) - 1) (print " " [])
      ▷ mode_inverse false
      ▷ newline true

-- Text, erased to the end of the line.
unfoldable pub wprintfln : String → List Arg → Console → Console
wprintfln format args c = c ▷ wprint format args ▷ clear_eol ▷ newline true

abbrev cell : ℕ → Console → Console
cell ch = wprint "%lc" (chr ch ∷ [])

-- A row of the frame: the left corner, `w` cells and the right corner.
unfoldable pub frame_row : (row col w left fill right : ℕ) → Console → Console
frame_row row col w left fill right c =
    c ▷ move_to row col ▷ cell left ▷ repeat w (cell fill) ▷ cell right

-- The loop over the rows inside, from row `r` on.
unfoldable pub middle_rows : (rows r col w : ℕ) → Console → Console
middle_rows zero r col w c = c
middle_rows (suc rows) r col w c =
    middle_rows rows (r + 1) col w (frame_row r col w 0x2551 b' ' 0x2551 c)

-- A frame of `width` by `height` cells with a title; the sizes less 2 count loops, which run as
-- often for a negative count as for 0.
unfoldable pub window : (row col width height : ℕ) → String → Console → Console
window row col width height title c =
    let w = width - 2 in
    let h = height - 2 in
    c
    ▷ frame_row row col w 0x2554 0x2550 0x2557
    ▷ middle_rows h (row + 1) col w
    ▷ frame_row (row + 1 + h) col w 0x255a 0x2550 0x255d
    ▷ move_to row (col + 2)
    ▷ print "[%s]" (str title ∷ [])

-- The end of each section of the display, `if (newline) { console.newline(); count++; }`, with the
-- count of lines that is returned.
unfoldable pub end_section : Bool → Console × ℕ → Console × ℕ
end_section blank (c, count) = if blank then (newline true c, count + 1) else (c, count)
