-- ===== src/Terminal.antt =====
-- What the program is built on and does not implement: ncurses, termios, the C library's `printf`
-- and clock, and floating point arithmetic. The calls that the program makes are values, kept in a
-- trace; what a call returns is the parameter `Env`, a function of the trace up to that call.
use cctop.Prelude.{ℕ, suc, String, Bool, List, [], ◌∷◌, Option}
use cctop.Prelude.Int.{ℤ}

-- A `double` is the expression that the code evaluates. Only the comparisons and the conversion to
-- `int` of `Env` give it a meaning. `lit n k` is the decimal literal n / 10^k.
pub data Double : Type 0 where
  lit : ℕ → ℕ → Double
  of_u64 : ℕ → Double
  of_int : ℤ → Double
  -- a value that a library function returns
  outside : ℕ → Double
  add sub mul div : Double → Double → Double

pub data Arg : Type 0 where
  num : ℕ → Arg
  int : ℤ → Arg
  real : Double → Arg
  str : String → Arg
  chr : ℕ → Arg

-- A format string with its arguments, as `vsprintf` gets them.
pub record Text : Type 0 where
  pub format : String
  pub args : List Arg

pub data Attr : Type 0 where
  normal bold underline blink reverse : Attr

pub data Signal : Type 0 where
  sigwinch sigint sigterm : Signal
  other_signal : ℕ → Signal

pub data Call : Type 0 where
  initscr start_color endwin refresh clear clrtoeol : Call
  move : ℕ → ℕ → Call
  attron attroff : Attr → Call
  attrset_normal : Call
  color_on : ℤ → Call
  alloc_pair : ℕ → ℕ → Call
  curs_set : ℕ → Call
  raw cbreak keypad : Call
  newline : Call
  printw addwstr : Text → Call
  timeout : ℕ → Call
  getch gettimeofday : Call
  tcgetattr tcsetattr : Call
  signal : Signal → Call
  -- `printf` on the standard streams, outside ncurses
  out err : Text → Call

abbrev pub Trace : Type 0
Trace = List Call

-- The answers, each a function of the calls made before, the most recent call first.
pub record Env : Type 0 where
  pub cols : Trace → ℕ
  pub lines : Trace → ℕ
  pub getcury : Trace → ℕ
  -- `find_pair` and `alloc_pair` answer -1 if there is no pair
  pub find_pair : Trace → ℕ → ℕ → ℤ
  pub new_pair : Trace → ℕ → ℕ → ℤ
  -- `none` is ERR
  pub get_char : Trace → Option ℕ
  -- The fuel of a wait beyond its milliseconds: how many polls may end without a key and without
  -- waiting, and how many milliseconds the clock may be off. (See Console.Waiting.)
  pub spare : ℕ
  -- milliseconds of `gettimeofday`
  pub millis : Trace → ℕ
  -- the length of the formatted text
  pub strlen : Text → ℕ
  -- `a < b`, `a == b` and `int(a)` of doubles
  pub lt : Double → Double → Bool
  pub eq : Double → Double → Bool
  pub to_int : Double → ℤ

-- The lines that a trace has completed.
unfoldable pub newlines : Trace → ℕ
newlines [] = 0
newlines (newline ∷ t) = suc (newlines t)
newlines (_ ∷ t) = newlines t
