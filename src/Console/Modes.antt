-- ===== src/Console/Modes.antt =====
-- lib/Console.cpp: modes and colours.
use cctop.Prelude.{ℕ, zero, Bool, true, false, ◌▷◌, ◌==◌, if◌then◌else◌}
use cctop.Prelude.Int.{ℤ, negsuc}
use cctop.Terminal.{Attr, Call, Env, attron, attroff, color_on, alloc_pair}
use cctop.Console.{Console, call}

-- the constants of lib/Console.cpp
abbrev pub attr_off : ℕ
attr_off = 0

abbrev pub attr_bold : ℕ
attr_bold = 1

abbrev pub attr_underscore : ℕ
attr_underscore = 4

abbrev pub attr_blink : ℕ
attr_blink = 5

abbrev pub attr_inverse : ℕ
attr_inverse = 7

-- the colours of ncurses.h
abbrev pub black : ℕ
black = 0

abbrev pub red : ℕ
red = 1

abbrev pub green : ℕ
green = 2

abbrev pub yellow : ℕ
yellow = 3

abbrev pub blue : ℕ
blue = 4

abbrev pub magenta : ℕ
magenta = 5

abbrev pub cyan : ℕ
cyan = 6

abbrev pub white : ℕ
white = 7

abbrev pub switch : Bool → Attr → Call
switch true a = attron a
switch false a = attroff a

unfoldable pub set_mode : ℕ → Bool → Console → Console
set_mode attr on c =
    if attr == attr_off
    then record (call (switch on Attr.normal) c) {
      bold = false;
      underscore = false;
      blink = false;
      inverse = false;
    }
    else if attr == attr_bold
    then record (call (switch on Attr.bold) c) { bold = on }
    else if attr == attr_underscore
    then record (call (switch on Attr.underline) c) { underscore = on }
    else if attr == attr_blink
    then record (call (switch on Attr.blink) c) { blink = on }
    else if attr == attr_inverse
    then record (call (switch on Attr.reverse) c) { inverse = on }
    else c

unfoldable pub mode_bold : Bool → Console → Console
mode_bold = set_mode attr_bold

unfoldable pub mode_underscore : Bool → Console → Console
mode_underscore = set_mode attr_underscore

unfoldable pub mode_blink : Bool → Console → Console
mode_blink = set_mode attr_blink

unfoldable pub mode_inverse : Bool → Console → Console
mode_inverse = set_mode attr_inverse

-- `pair == -1`
abbrev pub is_missing : ℤ → Bool
is_missing (negsuc zero) = true
is_missing _ = false

module _ ⦃env : Env⦄ where
  unfoldable pub set_colors : ℕ → ℕ → Console → Console
  set_colors fg bg c =
      let found = env.find_pair c.calls fg bg in
      let made = env.new_pair c.calls fg bg in
      let painted = record c { foreground = fg; background = bg } in
      if is_missing found
      then record painted { current_pair = made } ▷ call (alloc_pair fg bg) ▷ call (color_on made)
      else record painted { current_pair = found } ▷ call (color_on found)

  unfoldable pub set_foreground : ℕ → Console → Console
  set_foreground color c = record c { foreground = color } ▷ set_colors color c.background

  unfoldable pub set_background : ℕ → Console → Console
  set_background color c = record c { background = color } ▷ set_colors c.foreground color

  unfoldable pub default_colors : Console → Console
  default_colors = set_colors white black

  unfoldable pub colors_clear : Console → Console
  colors_clear c = (if c.background == 0 then c else set_background black c) ▷ λ d.
      if d.foreground == 0 then d else set_foreground white d

  unfoldable pub bg_clear : Console → Console
  bg_clear c = record (if c.background == 0 then c else set_background black c) { background = 0 }

  unfoldable pub fg_clear : Console → Console
  fg_clear c = record (if c.foreground == 0 then c else set_foreground white c) { foreground = 0 }

  -- `fg_red`, `fg_yellow` and `bg_yellow` call `set_colors`, the others one of the two setters.
  unfoldable pub fg_red : Console → Console
  fg_red c = set_colors red c.background c

  unfoldable pub fg_yellow : Console → Console
  fg_yellow c = set_colors yellow c.background c

  unfoldable pub bg_yellow : Console → Console
  bg_yellow c = set_colors c.foreground yellow c

  unfoldable pub fg_black : Console → Console
  fg_black = set_foreground black

  unfoldable pub fg_green : Console → Console
  fg_green = set_foreground green

  unfoldable pub fg_blue : Console → Console
  fg_blue = set_foreground blue

  unfoldable pub fg_magenta : Console → Console
  fg_magenta = set_foreground magenta

  unfoldable pub fg_cyan : Console → Console
  fg_cyan = set_foreground cyan

  unfoldable pub fg_white : Console → Console
  fg_white = set_foreground white

  unfoldable pub bg_black : Console → Console
  bg_black = set_background black

  unfoldable pub bg_red : Console → Console
  bg_red = set_background red

  unfoldable pub bg_green : Console → Console
  bg_green = set_background green

  unfoldable pub bg_blue : Console → Console
  bg_blue = set_background blue

  unfoldable pub bg_magenta : Console → Console
  bg_magenta = set_background magenta

  unfoldable pub bg_cyan : Console → Console
  bg_cyan = set_background cyan

  unfoldable pub bg_white : Console → Console
  bg_white = set_background white
