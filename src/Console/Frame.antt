-- ===== src/Console/Frame.antt =====
-- lib/Console.cpp: what is drawn does not touch the session, that is whether the console has been
-- cleaned up and how often curses mode has been ended.
use cctop.Prelude.{ℕ, zero, suc, ◌+◌, String, Bool, true, List, ◌≡◌, refl, ◌∙◌, arith, repeat}
use cctop.Terminal.{Arg, Double, Env}
use cctop.Console.Ending.{endwins}
use cctop.Console.{
  Console, call, move_to, clear_eol, clear, reset, mode_clear, newline, print, println, wprint,
}
use cctop.Console.Modes.{
  set_mode, mode_bold, mode_inverse, set_colors, set_foreground, fg_red, fg_yellow, fg_green,
  fg_blue, fg_cyan, fg_magenta,
}
use cctop.Console.Output.{inverseln, frame_row, middle_rows, window, end_section}
use cctop.Console.Gauge.{Style, gauge_color, gauge}

-- Whether the console has been cleaned up, and how often curses mode has been ended.
unfoldable pub ending : Console → Bool × ℕ
unfolding endwins
ending c = (c.aborting, endwins c.calls)

module _ (c : Console) where
  pub ending-move_to : (r k : ℕ) → ending (move_to r k c) ≡ ending c
  unfolding ending move_to call
  ending-move_to r k = refl

  pub ending-clear : ending (clear c) ≡ ending c
  unfolding ending clear move_to call
  ending-clear = refl

  pub ending-clear_eol : ending (clear_eol c) ≡ ending c
  unfolding ending clear_eol call
  ending-clear_eol = refl

  pub ending-reset : ending (reset c) ≡ ending c
  unfolding ending reset call
  ending-reset = refl

  pub ending-mode_clear : ending (mode_clear c) ≡ ending c
  unfolding ending mode_clear call
  ending-mode_clear = refl

  pub ending-print : (format : String) (args : List Arg) → ending (print format args c) ≡ ending c
  unfolding ending print call
  ending-print format args = refl

  pub ending-wprint : (format : String) (args : List Arg) → ending (wprint format args c) ≡ ending c
  unfolding ending wprint call
  ending-wprint format args = refl

  pub ending-newline : (erase : Bool) → ending (newline erase c) ≡ ending c
  unfolding ending newline clear_eol call
  ending-newline erase = ground arith

  pub ending-println :
      (format : String) (args : List Arg) → ending (println format args c) ≡ ending c
  unfolding ending println print newline clear_eol call
  ending-println format args = refl

  pub ending-set_mode : (attr : ℕ) (on : Bool) → ending (set_mode attr on c) ≡ ending c
  unfolding ending set_mode call
  ending-set_mode attr on = ground arith

  pub ending-mode_bold : (on : Bool) → ending (mode_bold on c) ≡ ending c
  unfolding mode_bold
  ending-mode_bold on = ending-set_mode _ on

  pub ending-mode_inverse : (on : Bool) → ending (mode_inverse on c) ≡ ending c
  unfolding mode_inverse
  ending-mode_inverse on = ending-set_mode _ on

-- A loop of which no round touches the session.
pub ending-repeat :
    (n : ℕ) (f : Console → Console) (c : Console)
    → ((d : Console) → ending (f d) ≡ ending d)
    → ending (repeat n f c) ≡ ending c
unfolding repeat
ending-repeat zero f c quiet = refl
ending-repeat (suc n) f c quiet = ending-repeat n f (f c) quiet ∙ quiet c

pub ending-repeat-print :
    (n : ℕ) (format : String) (args : List Arg) (c : Console)
    → ending (repeat n (print format args) c) ≡ ending c
ending-repeat-print n format args c =
    ending-repeat n (print format args) c (λ d. ending-print d format args)

pub ending-repeat-wprint :
    (n : ℕ) (format : String) (args : List Arg) (c : Console)
    → ending (repeat n (wprint format args) c) ≡ ending c
ending-repeat-wprint n format args c =
    ending-repeat n (wprint format args) c (λ d. ending-wprint d format args)

module _ ⦃env : Env⦄ (c : Console) where
  pub ending-set_colors : (fg bg : ℕ) → ending (set_colors fg bg c) ≡ ending c
  unfolding ending set_colors call
  ending-set_colors fg bg = ground arith

  pub ending-fg_red : ending (fg_red c) ≡ ending c
  unfolding fg_red
  ending-fg_red = ending-set_colors _ _

  pub ending-fg_yellow : ending (fg_yellow c) ≡ ending c
  unfolding fg_yellow
  ending-fg_yellow = ending-set_colors _ _

module _ ⦃env : Env⦄ where
  pub ending-set_foreground : (color : ℕ) (c : Console) → ending (set_foreground color c) ≡ ending c
  unfolding set_foreground ending
  ending-set_foreground color c =
      unfold ending in ending-set_colors (record c { foreground = color }) color c.background

  pub ending-fg_green : (c : Console) → ending (fg_green c) ≡ ending c
  unfolding fg_green
  ending-fg_green = ending-set_foreground _

  pub ending-fg_blue : (c : Console) → ending (fg_blue c) ≡ ending c
  unfolding fg_blue
  ending-fg_blue = ending-set_foreground _

  pub ending-fg_cyan : (c : Console) → ending (fg_cyan c) ≡ ending c
  unfolding fg_cyan
  ending-fg_cyan = ending-set_foreground _

  pub ending-fg_magenta : (c : Console) → ending (fg_magenta c) ≡ ending c
  unfolding fg_magenta
  ending-fg_magenta = ending-set_foreground _

pub ruleset quiet_frames = (
  ending-move_to, ending-clear, ending-clear_eol, ending-reset, ending-mode_clear, ending-print,
  ending-wprint, ending-mode_bold, ending-mode_inverse, ending-repeat-print, ending-repeat-wprint,
  ending-fg_red, ending-fg_yellow, ending-fg_green, ending-fg_blue, ending-fg_cyan,
  ending-fg_magenta,
)

module _ ⦃env : Env⦄ where
  pub ending-gauge_color :
      (style : Style) (pct : Double) (c : Console) → ending (gauge_color style pct c) ≡ ending c
  unfolding gauge_color
  ending-gauge_color style pct c =
      ground (arith, ending-fg_red c, ending-fg_yellow c, ending-fg_green c)

  pub ending-gauge :
      (width : ℕ) (pct : Double) (style : Style) (c : Console)
      → ending (gauge width pct style c) ≡ ending c
  unfolding gauge
  ending-gauge width pct style c = simp (quiet_frames, ending-gauge_color)

  pub ending-inverseln :
      (format : String) (args : List Arg) (c : Console)
      → ending (inverseln format args c) ≡ ending c
  unfolding inverseln
  ending-inverseln format args c = simp (quiet_frames, ending-newline)

-- A simp set for what display functions leave alone.
pub ruleset frame_laws =
    (quiet_frames, ending-newline, ending-println, ending-gauge, ending-inverseln)

pub ending-frame_row :
    (row col w left fill right : ℕ) (c : Console)
    → ending (frame_row row col w left fill right c) ≡ ending c
unfolding frame_row
ending-frame_row row col w left fill right c = simp quiet_frames

pub ending-middle_rows :
    (rows r col w : ℕ) (c : Console) → ending (middle_rows rows r col w c) ≡ ending c
unfolding middle_rows
ending-middle_rows zero r col w c = refl
ending-middle_rows (suc rows) r col w c =
    ending-middle_rows rows (r + 1) col w _ ∙ ending-frame_row r col w _ _ _ c

pub ending-window :
    (row col width height : ℕ) (title : String) (c : Console)
    → ending (window row col width height title c) ≡ ending c
unfolding window
ending-window row col width height title c =
    simp (quiet_frames, ending-frame_row, ending-middle_rows)

pub ending-end_section :
    (blank : Bool) (c : Console) (count : ℕ) → ending (end_section blank (c, count)).0 ≡ ending c
unfolding end_section
ending-end_section blank c count = ground (arith, ending-newline c true)
