-- ===== src/Console.antt =====
-- lib/Console.h and lib/Console.cpp, as built with USE_NCURSES: the state of class Console, and the
-- operations that the others are made of. A method is a function to the new state, and `calls` has
-- the library calls that it made. `Debug::log` writes to a log file and is left out.
pub mod Modes
pub mod Output
pub mod Gauge
pub mod Input
pub mod Session
pub mod Size
pub mod Lines
pub mod Cells
pub mod Waiting
pub mod Units
pub mod Ending
pub mod Frame
pub mod Pen
pub mod Pairs
pub mod Allocated
use cctop.Prelude.{ℕ, String, Bool, true, false, List, [], ◌∷◌, ◌▷◌, if◌then◌else◌}
use cctop.Prelude.Int.{ℤ}
use cctop.Prelude.Words.{to_u16}
use cctop.Terminal.{
  Arg, Text, Attr, Call, Trace, Env, attrset_normal, clrtoeol, move, newlines, printw, addwstr,
}
use cctop.Terminal

pub record Console : Type 0 where
  pub width : ℕ
  pub height : ℕ
  pub aborting : Bool
  pub current_pair : ℤ
  pub current_row : ℕ
  pub current_column : ℕ
  pub bold : Bool
  pub underscore : Bool
  pub blink : Bool
  pub inverse : Bool
  pub concealed : Bool
  pub cursor_hidden : Bool
  pub raw_input : Bool
  pub background : ℕ
  pub foreground : ℕ
  pub calls : Trace

-- One call of the library.
unfoldable pub call : Call → Console → Console
call k c = record c { calls = k ∷ c.calls }

-- The lines that the console has completed on the screen.
unfoldable pub printed : Console → ℕ
unfolding newlines
printed c = newlines c.calls

abbrev pub text : String → List Arg → Text
text format args = record { format = format; args = args }

-- `moveTo` takes `uint16_t`.
unfoldable pub move_to : ℕ → ℕ → Console → Console
move_to r c con =
    let r = to_u16 r in
    let c = to_u16 c in record (call (move r c) con) { current_row = r; current_column = c }

unfoldable pub clear_eol : Console → Console
clear_eol = call clrtoeol

unfoldable pub clear : Console → Console
clear c = c ▷ call Terminal.clear ▷ move_to 0 0

unfoldable pub update : Console → Console
update = call Terminal.refresh

unfoldable pub reset : Console → Console
reset = call attrset_normal

unfoldable pub mode_clear : Console → Console
mode_clear = call attrset_normal

-- `newline(erase)`; every caller leaves `erase` at true
unfoldable pub newline : Bool → Console → Console
newline erase c = (if erase then clear_eol c else c) ▷ call Terminal.newline

unfoldable pub print : String → List Arg → Console → Console
print format args = call (printw (text format args))

unfoldable pub println : String → List Arg → Console → Console
println format args c = c ▷ print format args ▷ newline true

-- `Console::wprintf`
unfoldable pub wprint : String → List Arg → Console → Console
wprint format args = call (addwstr (text format args))

unfoldable pub show_cursor : Bool → Console → Console
show_cursor true c = record (call (Terminal.curs_set 1) c) { cursor_hidden = false }
show_cursor false c = record (call (Terminal.curs_set 0) c) { cursor_hidden = true }

module _ ⦃env : Env⦄ where
  -- The curses sizes are ints, the fields `uint16_t`.
  unfoldable pub resize : Console → Console
  resize c =
      record c { width = to_u16 (env.cols c.calls); height = to_u16 (env.lines c.calls) } ▷ clear

  unfoldable pub cursor_row : Console → Console × ℕ
  cursor_row c = let row = to_u16 (env.getcury c.calls) in (record c { current_row = row }, row)

  -- The source asks `getcury` here too.
  unfoldable pub cursor_column : Console → Console × ℕ
  cursor_column c =
      let column = to_u16 (env.getcury c.calls) in (record c { current_column = column }, column)
