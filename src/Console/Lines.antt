-- ===== src/Console/Lines.antt =====
-- lib/Console.cpp: how many screen lines each operation completes.
use cctop.Prelude.{
  ℕ, zero, suc, ◌+◌, String, Bool, true, List, ◌≡◌, refl, ◌∙◌, arith, repeat, if◌then◌else◌,
}
use cctop.Terminal.{Arg, Double, Env}
use cctop.Console.{
  Console, call, printed, move_to, clear_eol, clear, reset, mode_clear, newline, print, println,
  wprint,
}
use cctop.Console.Modes.{
  set_mode, mode_bold, mode_inverse, set_colors, set_foreground, fg_red, fg_yellow, fg_green,
  fg_blue, fg_cyan, fg_magenta,
}
use cctop.Console.Output.{inverseln, frame_row, middle_rows, window, end_section}
use cctop.Console.Gauge.{Style, gauge_color, gauge}

module _ (c : Console) where
  pub printed-move_to : (r k : ℕ) → printed (move_to r k c) ≡ printed c
  unfolding printed move_to call
  printed-move_to r k = refl

  pub printed-clear : printed (clear c) ≡ printed c
  unfolding printed clear move_to call
  printed-clear = refl

  pub printed-clear_eol : printed (clear_eol c) ≡ printed c
  unfolding printed clear_eol call
  printed-clear_eol = refl

  pub printed-reset : printed (reset c) ≡ printed c
  unfolding printed reset call
  printed-reset = refl

  pub printed-mode_clear : printed (mode_clear c) ≡ printed c
  unfolding printed mode_clear call
  printed-mode_clear = refl

  pub printed-print :
      (format : String) (args : List Arg) → printed (print format args c) ≡ printed c
  unfolding printed print call
  printed-print format args = refl

  pub printed-wprint :
      (format : String) (args : List Arg) → printed (wprint format args c) ≡ printed c
  unfolding printed wprint call
  printed-wprint format args = refl

  pub printed-newline : (erase : Bool) → printed (newline erase c) ≡ suc (printed c)
  unfolding printed newline clear_eol call
  printed-newline erase = ground arith

  pub printed-println :
      (format : String) (args : List Arg) → printed (println format args c) ≡ suc (printed c)
  unfolding printed println print newline clear_eol call
  printed-println format args = refl

  pub printed-set_mode : (attr : ℕ) (on : Bool) → printed (set_mode attr on c) ≡ printed c
  unfolding printed set_mode call
  printed-set_mode attr on = ground arith

  pub printed-mode_bold : (on : Bool) → printed (mode_bold on c) ≡ printed c
  unfolding mode_bold
  printed-mode_bold on = printed-set_mode _ on

  pub printed-mode_inverse : (on : Bool) → printed (mode_inverse on c) ≡ printed c
  unfolding mode_inverse
  printed-mode_inverse on = printed-set_mode _ on

-- A loop of which no round completes a line.
pub printed-repeat :
    (n : ℕ) (f : Console → Console) (c : Console)
    → ((d : Console) → printed (f d) ≡ printed d)
    → printed (repeat n f c) ≡ printed c
unfolding repeat
printed-repeat zero f c quiet = refl
printed-repeat (suc n) f c quiet = printed-repeat n f (f c) quiet ∙ quiet c

pub printed-repeat-print :
    (n : ℕ) (format : String) (args : List Arg) (c : Console)
    → printed (repeat n (print format args) c) ≡ printed c
printed-repeat-print n format args c =
    printed-repeat n (print format args) c (λ d. printed-print d format args)

pub printed-repeat-wprint :
    (n : ℕ) (format : String) (args : List Arg) (c : Console)
    → printed (repeat n (wprint format args) c) ≡ printed c
printed-repeat-wprint n format args c =
    printed-repeat n (wprint format args) c (λ d. printed-wprint d format args)

module _ ⦃env : Env⦄ (c : Console) where
  pub printed-set_colors : (fg bg : ℕ) → printed (set_colors fg bg c) ≡ printed c
  unfolding printed set_colors call
  printed-set_colors fg bg = ground arith

  pub printed-fg_red : printed (fg_red c) ≡ printed c
  unfolding fg_red
  printed-fg_red = printed-set_colors _ _

  pub printed-fg_yellow : printed (fg_yellow c) ≡ printed c
  unfolding fg_yellow
  printed-fg_yellow = printed-set_colors _ _

module _ ⦃env : Env⦄ where
  pub printed-set_foreground :
      (color : ℕ) (c : Console) → printed (set_foreground color c) ≡ printed c
  unfolding set_foreground printed
  printed-set_foreground color c =
      unfold printed in printed-set_colors (record c { foreground = color }) color c.background

  pub printed-fg_green : (c : Console) → printed (fg_green c) ≡ printed c
  unfolding fg_green
  printed-fg_green = printed-set_foreground _

  pub printed-fg_blue : (c : Console) → printed (fg_blue c) ≡ printed c
  unfolding fg_blue
  printed-fg_blue = printed-set_foreground _

  pub printed-fg_cyan : (c : Console) → printed (fg_cyan c) ≡ printed c
  unfolding fg_cyan
  printed-fg_cyan = printed-set_foreground _

  pub printed-fg_magenta : (c : Console) → printed (fg_magenta c) ≡ printed c
  unfolding fg_magenta
  printed-fg_magenta = printed-set_foreground _

pub ruleset quiet_laws = (
  printed-move_to, printed-clear, printed-clear_eol, printed-reset, printed-mode_clear,
  printed-print, printed-wprint, printed-mode_bold, printed-mode_inverse, printed-repeat-print,
  printed-repeat-wprint, printed-fg_red, printed-fg_yellow, printed-fg_green, printed-fg_blue,
  printed-fg_cyan, printed-fg_magenta,
)

module _ ⦃env : Env⦄ where
  pub printed-gauge_color :
      (style : Style) (pct : Double) (c : Console) → printed (gauge_color style pct c) ≡ printed c
  unfolding gauge_color
  printed-gauge_color style pct c =
      ground (arith, printed-fg_red c, printed-fg_yellow c, printed-fg_green c)

  pub printed-gauge :
      (width : ℕ) (pct : Double) (style : Style) (c : Console)
      → printed (gauge width pct style c) ≡ printed c
  unfolding gauge
  printed-gauge width pct style c = simp (quiet_laws, printed-gauge_color)

  pub printed-inverseln :
      (format : String) (args : List Arg) (c : Console)
      → printed (inverseln format args c) ≡ suc (printed c)
  unfolding inverseln
  printed-inverseln format args c = simp (quiet_laws, printed-newline)

-- A simp set that counts the lines that a display function completes.
pub ruleset line_laws =
    (quiet_laws, printed-newline, printed-println, printed-gauge, printed-inverseln)

pub printed-frame_row :
    (row col w left fill right : ℕ) (c : Console)
    → printed (frame_row row col w left fill right c) ≡ printed c
unfolding frame_row
printed-frame_row row col w left fill right c = simp quiet_laws

pub printed-middle_rows :
    (rows r col w : ℕ) (c : Console) → printed (middle_rows rows r col w c) ≡ printed c
unfolding middle_rows
printed-middle_rows zero r col w c = refl
printed-middle_rows (suc rows) r col w c =
    printed-middle_rows rows (r + 1) col w _ ∙ printed-frame_row r col w _ _ _ c

-- A window is drawn with cursor moves alone, so it completes no line.
pub printed-window :
    (row col width height : ℕ) (title : String) (c : Console)
    → printed (window row col width height title c) ≡ printed c
unfolding window
printed-window row col width height title c =
    simp (quiet_laws, printed-frame_row, printed-middle_rows)

-- The end of a section adds as many lines to the count as it prints.
pub end_section_lem :
    (blank : Bool) (c : Console) (count : ℕ)
    → let (d, n) = end_section blank (c, count) in
      (n ≡ count + (if blank then 1 else 0)) × (printed d + count ≡ printed c + n)
unfolding end_section
end_section_lem blank c count = ground (arith, printed-newline c true)
