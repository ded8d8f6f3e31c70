-- ===== src/Help.antt =====
-- lib/Help.h and lib/Help.cpp: the help window.
pub mod Layout
use cctop.Prelude.{ℕ, ◌+◌, ◌-◌, String, Bool, List, [], ◌∷◌, ◌▷◌, if◌then◌else◌, true, false}
use cctop.Terminal.{str}
use cctop.Console.{Console, move_to, print}
use cctop.Console.Output.{window}
use cctop.Options.{Options}

unfoldable pub true_false : Bool → String
true_false true = "[ TRUE ]"
true_false false = "[ FALSE ]"

-- A line for an option, at a row of the window.
unfoldable pub option_line : ℕ → String → String → Bool → Console → Console
option_line row format what on c =
    c ▷ move_to row 6 ▷ print format (str what ∷ str (true_false on) ∷ [])

-- `row` is followed through its increments: the options stand in rows 6 to 12, from column 6.
unfoldable pub contents : Options → Console → Console
contents o c =
    c
    ▷ window 4 4 (c.width - 4 - 4) 15 "HELP"
    ▷ option_line 6 "C %-48.48s %s" "toggles condensed CPU display" o.condense_cpu
    ▷ option_line 7 "M %-48.48s %s" "toggles condensed Memory display" o.condense_memory
    ▷ option_line 8 "V %-48.48s %s" "toggles condensed Virtual Memory display"
        o.condense_virtual_memory
    ▷ option_line 9 "D %-48.48s %s" "toggles condensed Disk Activity display" o.condense_disk
    ▷ option_line 10 "N %-48.48s %s" "toggles condensed Network display" o.condense_network
    ▷ option_line 11 "P %-48.48s %s" "toggles condensed Process List display" o.condense_processes
    ▷ option_line 12 "X %-48.48s %s" "toggles remove blank lines" o.condense_main
    ▷ move_to 14 6
    ▷ print "H toggles this Help Window" []
    ▷ move_to 16 6
    ▷ print "Q, ^D,  or ^C to quit" []
    ▷ move_to 20 6

unfoldable pub show : Options → Console → Console
show o c = if o.show_help then contents o c else c
