-- ===== src/Console/Session.antt =====
-- lib/Console.cpp: set-up, clean-up and leaving the program.
use cctop.Prelude.{ℕ, String, true, false, List, [], ◌∷◌, ◌▷◌, if◌then◌else◌}
use cctop.Prelude.Int.{negsuc}
use cctop.Terminal.{
  Env, Signal, sigwinch, sigint, sigterm, other_signal, initscr, start_color, endwin, tcgetattr,
  tcsetattr, signal, out, err, num, Arg,
}
use cctop.Console.{Console, call, text, clear, reset, resize}
use cctop.Console.Modes.{default_colors}

-- The program goes on, or has left with an exit status; then the console is as its destructor left
-- it.
pub data Outcome {ℓ} (A : Type ℓ) : Type ℓ where
  running : A → Outcome A
  exited : ℕ → Console → Outcome A

unfoldable pub cleanup : Console → Console
cleanup c =
    let restored = c ▷ call tcsetattr in
    record (if c.aborting then restored else call endwin restored) { aborting = true }

-- `exit(status)` destroys the static `console`, and `~Console` cleans up.
unfoldable pub leave {ℓ} : {A : Type ℓ} → ℕ → Console → Outcome A
leave status c = exited status (cleanup c)

unfoldable pub abort {ℓ} : {A : Type ℓ} → String → List Arg → Console → Outcome A
abort format args c = leave 1 (c ▷ cleanup ▷ call (err (text format args)))

unfoldable pub exit_handler {ℓ} : {A : Type ℓ} → Signal → Console → Outcome A
exit_handler sigint c = leave 0 (c ▷ cleanup ▷ call (out (text "^C\n" [])))
exit_handler sigterm c = leave 0 (c ▷ cleanup ▷ call (out (text "KILLED\n" [])))
exit_handler sig c = leave 0 (cleanup c)

-- The fields before the constructor runs, as the class declares them.
abbrev pub zeroed : Console
zeroed = record {
  width = 0;
  height = 0;
  aborting = false;
  current_pair = negsuc 0;
  current_row = 0;
  current_column = 0;
  bold = false;
  underscore = false;
  blink = false;
  inverse = false;
  concealed = false;
  cursor_hidden = false;
  raw_input = false;
  background = 0;
  foreground = 0;
  calls = [];
}

module _ ⦃env : Env⦄ where
  -- The constructor.
  unfoldable pub start : Console
  start =
      zeroed
      ▷ call tcgetattr
      ▷ call initscr
      ▷ call start_color
      ▷ default_colors
      ▷ (λ c. record c { aborting = false })
      ▷ resize
      ▷ reset
      ▷ clear
      ▷ call (signal sigint)
      ▷ call (signal sigterm)

  unfoldable pub resize_handler : Signal → Console → Console
  resize_handler sigwinch c = resize c
  resize_handler sigint c = call (out (text "signal %d\n" (num 2 ∷ []))) c
  resize_handler sigterm c = call (out (text "signal %d\n" (num 15 ∷ []))) c
  resize_handler (other_signal n) c = call (out (text "signal %d\n" (num n ∷ []))) c
