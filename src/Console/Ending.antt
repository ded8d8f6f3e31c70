-- ===== src/Console/Ending.antt =====
-- lib/Console.cpp: every way to leave the program restores the terminal, once.
use cctop.Prelude.{ℕ, suc, ◌+◌, String, false, List, [], ◌∷◌, ◌≡◌, arith}
use cctop.Terminal.{Arg, Trace, Signal, sigint, endwin}
use cctop.Console.{Console, call}
use cctop.Console.Session.{Outcome, running, exited, cleanup, leave, abort, exit_handler}

-- How often a trace ends curses mode.
unfoldable pub endwins : Trace → ℕ
endwins [] = 0
endwins (endwin ∷ t) = suc (endwins t)
endwins (_ ∷ t) = endwins t

-- The program has left with this status, with one `endwin` more than before.
abbrev pub LeavesOnce {ℓ} : {A : Type ℓ} → ℕ → Console → Outcome A → Type 0
LeavesOnce status c (running _) = ⊥
LeavesOnce status c (exited s d) = (s ≡ status) × (endwins d.calls ≡ endwins c.calls + 1)

module _ {ℓ} (A : Type ℓ) (c : Console) where
  -- Unless the console has been cleaned up before, `abort` exits with status 1, and curses mode is
  -- ended once, although the destructor that runs at exit cleans up again.
  pub abort-LeavesOnce :
      (format : String) (args : List Arg)
      → c.aborting ≡ false
      → LeavesOnce {A = A} 1 c (abort format args c)
  unfolding abort leave cleanup call endwins
  abort-LeavesOnce format args h = ground arith

  -- Unless the console has been cleaned up before, a signal that `exit_handler` is installed for,
  -- and any other that it gets, exits with status 0 and ends curses mode once.
  pub exit_handler-LeavesOnce :
      (sig : Signal) → c.aborting ≡ false → LeavesOnce {A = A} 0 c (exit_handler sig c)
  unfolding exit_handler leave cleanup call endwins
  exit_handler-LeavesOnce sigint h = ground arith
  exit_handler-LeavesOnce sig h = ground arith
