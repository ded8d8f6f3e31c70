-- ===== src/Main.antt =====
-- main.cpp: `main`, for macOS and ncurses. `setlocale` is left out, and the answer of `geteuid` is an
-- argument.
pub mod Keys
pub mod Safety
pub mod Restored
pub mod Quitting
pub mod Boot
pub mod Startup
pub mod Program
pub mod Written
pub mod Going
use cctop.Prelude.{
  ◌+◌, ℕ, zero, suc, Bool, true, false, ◌||◌, Option, none, some, List, [], ◌∷◌, ◌▷◌, ◌==◌,
  if◌then◌else◌,
}
use cctop.Terminal.{Env}
use cctop.Options.{process, defaults}
use cctop.Console.{Console, clear, move_to, print, update, show_cursor}
use cctop.Console.Input.{raw, read_blocking, read_character}
use cctop.Console.Session.{Outcome, running, exited, leave}
use cctop.Cpu.{Naming}
use cctop.ProcessList.Users.{Accounts}
use cctop.Loop.{World, Answers, loop}

-- The answer to the question below.
unfoldable pub consent : Console × ℕ → Outcome Console
consent (con, c) = if c == b'N' || c == b'n' then leave 0 con else running con

module _ ⦃env : Env⦄ where
  -- The question to a user that is not root. (`read_character(&c, false)` always returns true.)
  unfoldable pub question : Console → Console × ℕ
  question con = read_blocking (
      con
      ▷ move_to 0 0
      ▷ print "*** Warning: This program should be run as root, or via sudo!\n" []
      ▷ print "    Otherwise, only your user processes can be examined.\n" []
      ▷ print "    Do you wish to continue anyway? (y/N): " [])

  unfoldable pub ask : ℕ → Console → Outcome Console
  ask uid con = if uid == 0 then running con else consent (question con)

  -- `main` up to the first `loop()`.
  unfoldable pub prepare : ℕ → Console → Outcome Console
  prepare uid con = elim (ask uid (con ▷ clear ▷ raw true)) [
    | running c ↦ running (c ▷ raw true ▷ show_cursor false)
    | exited s c ↦ exited s c
  ]

-- How a part of `main` ends: it goes on, it has left the program, it has used a null pointer, or the
-- fuel of the wait for a key ran out.
pub data Turn : Type 0 where
  going : World → Turn
  left : ℕ → Console → Turn
  crashed unfinished : Turn

-- A call of `loop()`, then the rest.
unfoldable pub after_loop : (World → Turn) → Outcome (Option World) → Turn
after_loop rest (running none) = crashed
after_loop rest (running (some w)) = rest w
after_loop rest (exited s c) = left s c

-- `options.process(c)`
unfoldable pub handle : ℕ → World → Turn
handle c w = elim (process c w.options w.console) [
  | exited s con ↦ left s con
  | running r ↦ going (record w { options = r.0; console = r.1 })
]

-- `if (console.read_character(&c, true)) options.process(c);`
unfoldable pub read_key : World → Option (Console × Option ℕ) → Turn
read_key w none = unfinished
read_key w (some (con, none)) = going (record w { console = con })
read_key w (some (con, some c)) = handle c (record w { console = con })

module _ ⦃env : Env⦄ where
  -- The end of a round: `console.update()` and the key. The fuel is the time to wait, what
  -- may come on top of it, and one.
  unfoldable pub end_round : World → Turn
  end_round w =
      let w = record w { console = update w.console } in
      read_key w
        (read_character (suc (w.options.read_timeout + env.spare)) w.options.read_timeout w.console)

module _ ⦃env : Env⦄ ⦃names : Naming⦄ (accounts : Accounts) where
  unfoldable pub pass : Answers → World → Outcome (Option World)
  pass a w = elim (loop accounts a w) [
    | exited s c ↦ exited s c
    | running none ↦ running none
    | running (some r) ↦ running (some r.0)
  ]

  -- A round of `for (;;)`.
  unfoldable pub turn : Answers → World → Turn
  turn a w = after_loop end_round (pass a w)

  -- `main` up to `for (;;)`.
  unfoldable pub enter : ℕ → Answers → World → Turn
  enter uid a w = elim (prepare uid w.console) [
    | exited s c ↦ left s c
    | running c ↦ after_loop (λ w. going w) (pass a (record w { console = c }))
  ]
