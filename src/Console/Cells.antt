-- ===== src/Console/Cells.antt =====
-- lib/Console.cpp: what `gauge` and `window` draw, counted in calls.
use cctop.Prelude.{
  ℕ, zero, suc, ◌+◌, ◌-◌, ◌*◌, ◌≤◌, String, false, List, [], ◌∷◌, ◌≡◌, refl, ap, arith, repeat,
}
use cctop.Prelude.Int.{pos_part}
use cctop.Terminal.{Arg, Trace, Double, Env, printw, addwstr, lit}
use cctop.Console.{Console, call, move_to, print, wprint, mode_clear}
use cctop.Console.Modes.{set_colors, set_foreground, fg_red, fg_yellow, fg_green, green}
use cctop.Console.Output.{frame_row, middle_rows, window}
use cctop.Console.Gauge.{Style, empty, to_fill, gauge_color, gauge}

-- The wide glyphs of a trace, which `wprint` draws, and the texts, which `print` draws.
unfoldable pub wide : Trace → ℕ
wide [] = 0
wide (addwstr _ ∷ t) = suc (wide t)
wide (_ ∷ t) = wide t

unfoldable pub narrow : Trace → ℕ
narrow [] = 0
narrow (printw _ ∷ t) = suc (narrow t)
narrow (_ ∷ t) = narrow t

glyphs : Console → ℕ
unfolding wide
glyphs c = wide c.calls

texts : Console → ℕ
unfolding narrow
texts c = narrow c.calls

module _ (c : Console) where
  glyphs-move_to : (r k : ℕ) → glyphs (move_to r k c) ≡ glyphs c
  unfolding glyphs move_to call
  glyphs-move_to r k = refl

  glyphs-mode_clear : glyphs (mode_clear c) ≡ glyphs c
  unfolding glyphs mode_clear call
  glyphs-mode_clear = refl

  texts-mode_clear : texts (mode_clear c) ≡ texts c
  unfolding texts mode_clear call
  texts-mode_clear = refl

  glyphs-print : (format : String) (args : List Arg) → glyphs (print format args c) ≡ glyphs c
  unfolding glyphs print call
  glyphs-print format args = refl

  texts-print : (format : String) (args : List Arg) → texts (print format args c) ≡ suc (texts c)
  unfolding texts print call
  texts-print format args = refl

  glyphs-wprint :
      (format : String) (args : List Arg) → glyphs (wprint format args c) ≡ suc (glyphs c)
  unfolding glyphs wprint call
  glyphs-wprint format args = refl

  texts-wprint : (format : String) (args : List Arg) → texts (wprint format args c) ≡ texts c
  unfolding texts wprint call
  texts-wprint format args = refl

module _ (format : String) (args : List Arg) where
  glyphs-repeat-wprint :
      (n : ℕ) (c : Console) → glyphs (repeat n (wprint format args) c) ≡ glyphs c + n
  unfolding repeat
  glyphs-repeat-wprint zero c = omega arith
  glyphs-repeat-wprint (suc n) c =
      omega (arith, glyphs-repeat-wprint n (wprint format args c), glyphs-wprint c format args)

  texts-repeat-wprint : (n : ℕ) (c : Console) → texts (repeat n (wprint format args) c) ≡ texts c
  unfolding repeat
  texts-repeat-wprint zero c = refl
  texts-repeat-wprint (suc n) c =
      omega (arith, texts-repeat-wprint n (wprint format args c), texts-wprint c format args)

  glyphs-repeat-print : (n : ℕ) (c : Console) → glyphs (repeat n (print format args) c) ≡ glyphs c
  unfolding repeat
  glyphs-repeat-print zero c = refl
  glyphs-repeat-print (suc n) c =
      omega (arith, glyphs-repeat-print n (print format args c), glyphs-print c format args)

  texts-repeat-print : (n : ℕ) (c : Console) → texts (repeat n (print format args) c) ≡ texts c + n
  unfolding repeat
  texts-repeat-print zero c = omega arith
  texts-repeat-print (suc n) c =
      omega (arith, texts-repeat-print n (print format args c), texts-print c format args)

ruleset cell_laws = (
  glyphs-move_to, glyphs-mode_clear, texts-mode_clear, glyphs-print, texts-print, glyphs-wprint,
  texts-wprint, glyphs-repeat-wprint, texts-repeat-wprint, glyphs-repeat-print, texts-repeat-print,
)

module _ ⦃env : Env⦄ where
  glyphs-gauge_color :
      (style : Style) (pct : Double) (c : Console) → glyphs (gauge_color style pct c) ≡ glyphs c
  unfolding gauge_color fg_red fg_yellow fg_green set_foreground set_colors call glyphs
  glyphs-gauge_color style pct c = ground arith

  texts-gauge_color :
      (style : Style) (pct : Double) (c : Console) → texts (gauge_color style pct c) ≡ texts c
  unfolding gauge_color fg_red fg_yellow fg_green set_foreground set_colors call texts
  texts-gauge_color style pct c = ground arith

  -- A gauge draws `toFill` glyphs (none if that is negative) and two brackets, and blanks up to the
  -- width; a `toFill` above the width is not cut.
  gauge_cells :
      (width : ℕ) (pct : Double) (style : Style) (c : Console)
      → let filled = pos_part (to_fill width pct) in
        let drawn = gauge width pct style c in
        (glyphs drawn ≡ glyphs c + filled) × (texts drawn ≡ texts c + (2 + (width - filled)))
  unfolding gauge
  gauge_cells width pct style c =
      (simp (cell_laws, glyphs-gauge_color), simp (cell_laws, texts-gauge_color) (omega arith))

  -- In the style of the battery gauge the colour is green from .5 on: the thresholds are fractions.
  pub gauge_green :
      (pct : Double) (c : Console)
      → env.lt pct (lit 2 1) ≡ false
      → env.lt pct (lit 5 1) ≡ false
      → (gauge_color empty pct c).foreground ≡ green
  unfolding gauge_color fg_red fg_yellow fg_green set_foreground set_colors call
  gauge_green pct c low mid = ground arith

glyphs-frame_row :
    (row col w left fill right : ℕ) (c : Console)
    → glyphs (frame_row row col w left fill right c) ≡ glyphs c + (w + 2)
unfolding frame_row
glyphs-frame_row row col w left fill right c = simp cell_laws (omega arith)

glyphs-middle_rows :
    (rows r col w : ℕ) (c : Console)
    → glyphs (middle_rows rows r col w c) ≡ glyphs c + rows * (w + 2)
unfolding middle_rows
glyphs-middle_rows zero r col w c = omega arith
glyphs-middle_rows (suc rows) r col w c = omega (
  arith,
  glyphs-middle_rows rows (r + 1) col w (frame_row r col w 0x2551 b' ' 0x2551 c),
  glyphs-frame_row r col w 0x2551 b' ' 0x2551 c,
)

-- A window of at least two rows and columns draws one glyph for each of its cells.
window_cells :
    (row col width height : ℕ) (title : String) (c : Console)
    → 2 ≤ width
    → 2 ≤ height
    → glyphs (window row col width height title c) ≡ glyphs c + width * height
unfolding window
window_cells row col width height title c hw hh =
    let w : width - 2 + 2 ≡ width = omega arith in
    let h : height ≡ height - 2 + 2 = omega arith in
    simp (cell_laws, glyphs-frame_row, glyphs-middle_rows)
      (rw w (omega (arith, ap (λ (n : ℕ). width * n) h)))
