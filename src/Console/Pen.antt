-- ===== src/Console/Pen.antt =====
-- lib/Console.cpp: the attributes and the colour that the terminal writes with, as the library calls
-- have set them.
use cctop.Prelude.{
  ℕ, zero, suc, ◌+◌, String, Option, none, some, Bool, true, false, List, [], ◌∷◌, ◌≡◌, refl, ◌∙◌,
  ap, repeat,
}
use cctop.Prelude.Int.{ℤ, pos}
use cctop.Terminal.{Arg, Attr, Double, Env, Trace, attron, attroff, attrset_normal, color_on}
use cctop.Console.{
  Console, call, move_to, clear_eol, clear, reset, mode_clear, newline, print, println, wprint,
}
use cctop.Console.Modes.{set_mode, mode_bold, mode_inverse}
use cctop.Console.Output.{inverseln, frame_row, middle_rows, window, end_section}
use cctop.Console.Gauge.{Style, gauge}

-- What curses keeps for `stdscr`. Pair 0 has the terminal's own colours.
pub record Pen : Type 0 where
  pub bold : Bool
  pub underline : Bool
  pub blink : Bool
  pub reverse : Bool
  pub pair : ℤ

abbrev pub plain : Pen
plain = record { bold = false; underline = false; blink = false; reverse = false; pair = pos 0 }

unfoldable switched : Bool → Attr → Pen → Pen
switched on Attr.normal p = p
switched on Attr.bold p = record p { bold = on }
switched on Attr.underline p = record p { underline = on }
switched on Attr.blink p = record p { blink = on }
switched on Attr.reverse p = record p { reverse = on }

unfoldable pub pen_of : Trace → Pen
unfolding switched
pen_of [] = plain
pen_of (attron a ∷ t) = switched true a (pen_of t)
pen_of (attroff a ∷ t) = switched false a (pen_of t)
pen_of (attrset_normal ∷ t) = plain
pen_of (color_on n ∷ t) = record (pen_of t) { pair = n }
pen_of (_ ∷ t) = pen_of t

unfoldable pub pen : Console → Pen
unfolding pen_of
pen c = pen_of c.calls

-- A loop of which no round touches the pen.
pen-repeat :
    (n : ℕ) (f : Console → Console) (c : Console)
    → ((d : Console) → pen (f d) ≡ pen d)
    → pen (repeat n f c) ≡ pen c
unfolding repeat
pen-repeat zero f c same = refl
pen-repeat (suc n) f c same = pen-repeat n f (f c) same ∙ same c

module _ (c : Console) where
  pub pen-move_to : (r k : ℕ) → pen (move_to r k c) ≡ pen c
  unfolding pen move_to call
  pen-move_to r k = refl

  pub pen-clear : pen (clear c) ≡ pen c
  unfolding pen clear move_to call
  pen-clear = refl

  pub pen-clear_eol : pen (clear_eol c) ≡ pen c
  unfolding pen clear_eol call
  pen-clear_eol = refl

  pub pen-reset : pen (reset c) ≡ plain
  unfolding pen reset call
  pen-reset = refl

  pub pen-mode_clear : pen (mode_clear c) ≡ plain
  unfolding pen mode_clear call
  pen-mode_clear = refl

  pub pen-print : (format : String) (args : List Arg) → pen (print format args c) ≡ pen c
  unfolding pen print call
  pen-print format args = refl

  pub pen-wprint : (format : String) (args : List Arg) → pen (wprint format args c) ≡ pen c
  unfolding pen wprint call
  pen-wprint format args = refl

  pub pen-newline : (erase : Bool) → pen (newline erase c) ≡ pen c
  unfolding pen newline clear_eol call
  pen-newline true = refl
  pen-newline false = refl

  pub pen-println : (format : String) (args : List Arg) → pen (println format args c) ≡ pen c
  unfolding pen println print newline clear_eol call
  pen-println format args = refl

  pub pen-mode_bold : (on : Bool) → pen (mode_bold on c) ≡ record (pen c) { bold = on }
  unfolding pen mode_bold set_mode call
  pen-mode_bold true = refl
  pen-mode_bold false = refl

  pub pen-mode_inverse : (on : Bool) → pen (mode_inverse on c) ≡ record (pen c) { reverse = on }
  unfolding pen mode_inverse set_mode call
  pen-mode_inverse true = refl
  pen-mode_inverse false = refl

-- The cells of a loop are written with the pen as it is.
pub pen-repeat-print :
    (n : ℕ) (format : String) (args : List Arg) (c : Console)
    → pen (repeat n (print format args) c) ≡ pen c
pen-repeat-print n format args c = pen-repeat n (print format args) c (λ d. pen-print d format args)

pub pen-repeat-wprint :
    (n : ℕ) (format : String) (args : List Arg) (c : Console)
    → pen (repeat n (wprint format args) c) ≡ pen c
pen-repeat-wprint n format args c =
    pen-repeat n (wprint format args) c (λ d. pen-wprint d format args)

pub ruleset pen_laws = (
  pen-move_to, pen-clear, pen-clear_eol, pen-reset, pen-mode_clear, pen-print, pen-wprint,
  pen-newline, pen-println, pen-mode_bold, pen-mode_inverse, pen-repeat-print, pen-repeat-wprint,
)

-- Nothing is switched on, and the colours are the terminal's own.
abbrev pub IsPlain : Console → Type 0
IsPlain c = pen c ≡ plain

-- Of a result that there is, with its console.
abbrev pub Plain {ℓ} : (A : Type ℓ) → (A → Console) → Option A → Type 0
Plain A con none = Unit
Plain A con (some a) = IsPlain (con a)

module _ ⦃env : Env⦄ where
  -- The bars of a gauge may be coloured; the pen is plain after it.
  pub pen-gauge :
      (width : ℕ) (pct : Double) (style : Style) (c : Console) → IsPlain (gauge width pct style c)
  unfolding gauge
  pen-gauge width pct style c = simp pen_laws

  pub pen-inverseln :
      (format : String) (args : List Arg) (c : Console)
      → pen (inverseln format args c) ≡ record (pen c) { reverse = false }
  unfolding inverseln
  pen-inverseln format args c = simp pen_laws

pub pen-frame_row :
    (row col w left fill right : ℕ) (c : Console)
    → pen (frame_row row col w left fill right c) ≡ pen c
unfolding frame_row
pen-frame_row row col w left fill right c = simp pen_laws

pub pen-middle_rows : (rows r col w : ℕ) (c : Console) → pen (middle_rows rows r col w c) ≡ pen c
unfolding middle_rows
pen-middle_rows zero r col w c = refl
pen-middle_rows (suc rows) r col w c =
    pen-middle_rows rows (r + 1) col w _ ∙ pen-frame_row r col w _ _ _ c

pub pen-window :
    (row col width height : ℕ) (title : String) (c : Console)
    → pen (window row col width height title c) ≡ pen c
unfolding window
pen-window row col width height title c = simp (pen_laws, pen-frame_row, pen-middle_rows)

pub pen-end_section :
    (blank : Bool) (c : Console) (count : ℕ) → pen (end_section blank (c, count)).0 ≡ pen c
unfolding end_section
pen-end_section true c count = pen-newline c true
pen-end_section false c count = refl

module _ ⦃env : Env⦄ where
  -- A line in reverse video leaves a plain pen plain.
  pub inverseln-IsPlain :
      (format : String) (args : List Arg) (c : Console)
      → IsPlain c
      → IsPlain (inverseln format args c)
  inverseln-IsPlain format args c h =
      pen-inverseln format args c ∙ ap (λ (p : Pen). record p { reverse = false }) h
