-- ===== src/Help/Layout.antt =====
-- lib/Help.cpp: the help window takes no line of the display.
use cctop.Prelude.{ℕ, String, Bool, ◌≡◌, arith}
use cctop.Console.{Console, printed}
use cctop.Console.Lines.{line_laws, printed-window}
use cctop.Help.{option_line, contents, show}
use cctop.Options.{Options}

printed-option_line :
    (row : ℕ) (format what : String) (on : Bool) (c : Console)
    → printed (option_line row format what on c) ≡ printed c
unfolding option_line
printed-option_line row format what on c = simp line_laws

printed-contents : (o : Options) (c : Console) → printed (contents o c) ≡ printed c
unfolding contents
printed-contents o c = simp (line_laws, printed-option_line, printed-window)

pub printed-show : (o : Options) (c : Console) → printed (show o c) ≡ printed c
unfolding show
printed-show o c = ground (arith, printed-contents o c)
