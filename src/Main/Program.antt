-- ===== src/Main/Program.antt =====
-- The program from its first constructor to its last round.
use cctop.Prelude.{true, ℕ, ◌≡◌, ◌<◌, Option, none, some, List, [], ◌∷◌, length, arith, false, ap}
use cctop.Prelude.Words.{u16_mod}
use cctop.Terminal.{Env}
use cctop.Console.Session.{Outcome, running, exited, exit_handler}
use cctop.Console.Ending.{LeavesOnce, exit_handler-LeavesOnce}
use cctop.Console.Frame.{ending}
use cctop.Terminal.{sigint, sigterm}
use cctop.Console.{Console}
use cctop.Console.Waiting.{Waits}
use cctop.Cpu.{Naming}
use cctop.Loop.{World, Answers}
use cctop.ProcessList.Users.{Accounts}
use cctop.Loop.Ready.{IsTold}
use cctop.Main.{Turn, going, left, crashed, unfinished, after_loop, turn, enter}
use cctop.Main.Boot.{Boot, boot}
use cctop.Main.Startup.{Booted, boot-Booted}
use cctop.Main.Safety.{IsOpen, Safe, turn-Safe, enter-Safe}

-- The rest, if the program has not left.
unfoldable pub continue : (World → Turn) → Turn → Turn
continue rest (going w) = rest w
continue rest t = t

-- What comes next: a round, with the answers of the system, or one of the two signals that a handler is
-- installed for. (A signal is taken to come between two rounds.)
pub data Event : Type 0 where
  round : Answers → Event
  interrupt terminate : Event

-- A handler runs to its `exit`.
unfoldable pub stop : Outcome World → Turn
stop (running w) = going w
stop (exited s c) = left s c

module _ ⦃env : Env⦄ ⦃names : Naming⦄ (accounts : Accounts) where
  unfoldable pub step : Event → World → Turn
  step (round a) w = turn accounts a w
  step interrupt w = stop (exit_handler sigint w.console)
  step terminate w = stop (exit_handler sigterm w.console)

  -- What comes after the first pass.
  unfoldable pub steps : List Event → World → Turn
  steps [] w = going w
  steps (e ∷ es) w = continue (steps es) (step e w)

  -- The program, run by a user: the constructors, `main` up to its endless loop, and what comes next.
  unfoldable pub program : ℕ → Boot → Answers → List Event → Turn
  program uid b a es = after_loop (λ w. continue (steps es) (enter accounts uid a w)) (boot b)

-- What is asked in a pass is told.
abbrev pub IsListed : Event → Type 0
IsListed (round a) = IsTold a
IsListed interrupt = Unit
IsListed terminate = Unit

abbrev pub AllListed : List Event → Type 0
AllListed [] = Unit
AllListed (e ∷ es) = IsListed e × AllListed es

module _ ⦃names : Naming⦄ where
  LeavesOnce-Safe :
      (c : Console) (r : Outcome World) → ending c ≡ (false, 0) → LeavesOnce 0 c r → Safe (stop r)
  unfolding stop ending
  LeavesOnce-Safe c (running w) e h = absurd h
  LeavesOnce-Safe c (exited s d) e h = (omega (arith, h.0), omega (arith, h.1, ap (λ p. p.1) e))

module _ ⦃env : Env⦄ ⦃names : Naming⦄ (accounts : Accounts) where
  step-Safe : (e : Event) (w : World) → Waits env → IsListed e → IsOpen w → Safe (step accounts e w)
  unfolding step ending
  step-Safe (round a) w clock l r = turn-Safe accounts a w clock l r
  step-Safe interrupt w clock l r =
      LeavesOnce-Safe w.console _ r.open_session
        (exit_handler-LeavesOnce World w.console sigint (ap (λ p. p.0) r.open_session))
  step-Safe terminate w clock l r =
      LeavesOnce-Safe w.console _ r.open_session
        (exit_handler-LeavesOnce World w.console sigterm (ap (λ p. p.0) r.open_session))

  continue-Safe :
      (rest : World → Turn) (t : Turn)
      → Safe t
      → ((w : World) → IsOpen w → Safe (rest w))
      → Safe (continue rest t)
  unfolding continue
  continue-Safe rest (going w) s h = h w s
  continue-Safe rest (left status c) s h = s
  continue-Safe rest crashed s h = s
  continue-Safe rest unfinished s h = s

  steps-Safe :
      (es : List Event) (w : World)
      → Waits env
      → AllListed es
      → IsOpen w
      → Safe (steps accounts es w)
  unfolding steps
  steps-Safe [] w clock l r = r
  steps-Safe (e ∷ es) w clock (l, ls) r =
      continue-Safe (steps accounts es) (step accounts e w) (step-Safe e w clock l r)
        (λ w' r'. steps-Safe es w' clock ls r')

  Booted-Safe :
      (rest : World → Turn) (r : Outcome (Option World))
      → Booted r
      → ((w : World) → IsOpen w → Safe (rest w))
      → Safe (after_loop rest r)
  unfolding after_loop
  Booted-Safe rest (running none) b h = b
  Booted-Safe rest (running (some w)) b h = h w b
  Booted-Safe rest (exited s c) b h = (omega (arith, b.0), b.1)

  -- Under the conditions on waits (Waits), if the log can be opened, on a system with from 1 to 65535
  -- cores that tells their number, and if in each pass libproc answers about a process with its number
  -- and the power source services describe the sources (IsTold): after any number of rounds, with ^C or
  -- a request to terminate at any point between them, and whatever the other answers, the keys and the
  -- sizes of the window are, the program is in a state that can be updated with curses mode on, or it
  -- has left with status 0 or 1 and curses mode ended once. It has used no null pointer, and each wait
  -- for a key has ended within its fuel.
  pub program-Safe :
      (uid cpus : ℕ) (b : Boot) (a : Answers) (es : List Event)
      → Waits env
      → b.log_opened ≡ true
      → b.cpu_count ≡ some cpus
      → 0 < length b.first_ticks
      → length b.first_ticks < u16_mod
      → IsTold a
      → AllListed es
      → Safe (program accounts uid b a es)
  unfolding program
  program-Safe uid cpus b a es clock log e pos small l ls =
      Booted-Safe _ (boot b) (boot-Booted b cpus log e pos small) (λ w r.
        continue-Safe (steps accounts es) (enter accounts uid a w) (enter-Safe accounts uid a w l r)
          (λ w' r'. steps-Safe es w' clock ls r'))
