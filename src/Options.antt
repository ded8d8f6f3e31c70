-- ===== src/Options.antt =====
-- lib/Options.h and lib/Options.cpp: the display options and the keys that change them.
pub mod Keys
pub mod Presses
use cctop.Prelude.{ℕ, Bool, true, false, not, ◌||◌, [], ◌==◌, if◌then◌else◌}
use cctop.Console.{Console, clear}
use cctop.Console.Session.{Outcome, running, abort}

pub record Options : Type 0 where
  pub show_help : Bool
  pub condense_main : Bool
  pub condense_cpu : Bool
  pub condense_cpu_state : Bool
  pub condense_memory : Bool
  pub condense_virtual_memory : Bool
  pub condense_disk : Bool
  pub condense_network : Bool
  pub condense_processes : Bool
  -- in milliseconds
  pub read_timeout : ℕ
  pub min_rows : ℕ

-- The initialisers of the class.
abbrev pub defaults : Options
defaults = record {
  show_help = false;
  condense_main = false;
  condense_cpu = false;
  condense_cpu_state = false;
  condense_memory = false;
  condense_virtual_memory = false;
  condense_disk = false;
  condense_network = false;
  condense_processes = false;
  read_timeout = 1000;
  min_rows = 0;
}

pub data Action : Type 0 where
  quit redraw cpu memory virtual_memory disk network processes main help ignored : Action

-- The labels of the `switch`.
unfoldable pub action : ℕ → Action
action c =
    if c == 3 || c == b'q' || c == b'Q'
    then quit
    else if c == 12
    then redraw
    else if c == b'c' || c == b'C'
    then cpu
    else if c == b'm' || c == b'M'
    then memory
    else if c == b'v' || c == b'V'
    then virtual_memory
    else if c == b'd' || c == b'D'
    then disk
    else if c == b'n' || c == b'N'
    then network
    else if c == b'p' || c == b'P'
    then processes
    else if c == b'x' || c == b'X'
    then main
    else if c == b'?' || c == b'h'
    then help
    else ignored

-- The bodies of the `switch`; all but the first and the last break, and clear the screen.
unfoldable pub perform : Action → Options → Console → Outcome (Options × Console)
perform quit o con = abort "QUIT\n" [] con
perform redraw o con = running (record o { show_help = false }, clear (clear con))
perform cpu o con =
    running
      (record o { condense_cpu_state = not o.condense_cpu_state; show_help = false }, clear con)
perform memory o con =
    running (record o { condense_memory = not o.condense_memory; show_help = false }, clear con)
perform virtual_memory o con = running (
  record o { condense_virtual_memory = not o.condense_virtual_memory; show_help = false },
  clear con,
)
perform disk o con =
    running (record o { condense_disk = not o.condense_disk; show_help = false }, clear con)
perform network o con =
    running (record o { condense_network = not o.condense_network; show_help = false }, clear con)
perform processes o con =
    running
      (record o { condense_processes = not o.condense_processes; show_help = false }, clear con)
perform main o con =
    running (record o { condense_main = not o.condense_main; show_help = false }, clear con)
perform help o con = running (record o { show_help = not o.show_help }, clear con)
perform ignored o con = running (o, con)

unfoldable pub process : ℕ → Options → Console → Outcome (Options × Console)
process c o con = perform (action c) o con
