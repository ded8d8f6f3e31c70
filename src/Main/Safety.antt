-- ===== src/Main/Safety.antt =====
-- main.cpp: no round of `main` meets a null pointer, and a program that leaves restores the terminal.
use cctop.Prelude.{ℕ, suc, ◌≤◌, ◌≡◌, ap, ◌∙◌, false, Option, none, some, arith, inl, inr, ◌+◌}
use cctop.Terminal.{Env}
use cctop.Console.{Console, update}
use cctop.Console.Frame.{ending}
use cctop.Console.Ending.{endwins}
use cctop.Console.Waiting.{Waits, read_character_total}
use cctop.Console.Session.{Outcome, running, exited}
use cctop.Cpu.{Naming}
use cctop.Loop.{World, Answers}
use cctop.Loop.Ready.{IsReady}
use cctop.Loop.Pass.{loop_total}
use cctop.Options.{Options}
use cctop.ProcessList.Users.{Accounts}
use cctop.Loop.Ready.{IsTold}
use cctop.Main.{
  Turn, going, left, crashed, unfinished, after_loop, pass, handle, read_key, end_round, turn,
  enter,
}
use cctop.Main.Keys.{
  process-Handled, Handled, Asked, prepare-Asked, ending-read_character, ending-update,
}

-- The samplers can be updated, the processes are filed, and curses mode is on: it has not been ended.
pub record IsOpen ⦃names : Naming⦄ (w : World) : Type 0 where
  pub ready : IsReady w
  pub open_session : ending w.console ≡ (false, 0)

-- The program goes on in such a state, or has left after ending curses mode once. It has used no null
-- pointer, and no wait was endless.
abbrev pub Safe : ⦃names : Naming⦄ → Turn → Type 0
Safe (going w) = IsOpen w
Safe (left status c) = (status ≤ 1) × (endwins c.calls ≡ 1)
Safe crashed = ⊥
Safe unfinished = ⊥

module _ ⦃env : Env⦄ ⦃names : Naming⦄ where
  with_console :
      (w : World) (c : Console)
      → IsOpen w
      → ending c ≡ ending w.console
      → IsOpen (record w { console = c })
  with_console w c r e = record {
    ready = record {
      processor = r.ready.processor;
      disk = r.ready.disk;
      network = r.ready.network;
      processes = r.ready.processes;
    };
    open_session = e ∙ r.open_session;
  }

  Handled-Safe :
      (w : World) (r : Outcome (Options × Console))
      → IsOpen w
      → Handled w.options w.console r
      → Safe (elim r [
        | exited s con ↦ left s con
        | running r ↦ going (record w { options = r.0; console = r.1 })
      ])
  unfolding ending
  Handled-Safe w (running (o, c)) r h = record {
    ready = record {
      processor = r.ready.processor;
      disk = r.ready.disk;
      network = r.ready.network;
      processes = r.ready.processes;
    };
    open_session = h.0 ∙ r.open_session;
  }
  Handled-Safe w (exited s c) r h = omega (arith, h.0, h.1, ap (λ p. p.1) r.open_session)

  handle-Safe : (k : ℕ) (w : World) → IsOpen w → Safe (handle k w)
  unfolding handle ending
  handle-Safe k w r =
      Handled-Safe w _ r (process-Handled k w.options w.console (ap (λ p. p.0) r.open_session))

  read_key-Safe :
      (w : World) (a : Console × Option ℕ)
      → IsOpen w
      → ending a.0 ≡ ending w.console
      → Safe (read_key w (some a))
  unfolding read_key
  read_key-Safe w (c, none) r e = with_console w c r e
  read_key-Safe w (c, some k) r e = handle-Safe k _ (with_console w c r e)

  end_round-Safe : (w : World) → Waits env → IsOpen w → Safe (end_round w)
  unfolding end_round
  end_round-Safe w clock r =
      let c = update w.console in
      let updated = with_console w c r (ending-update w.console) in
      let ((d, k), done, _) =
        read_character_total clock (suc (w.options.read_timeout + env.spare)) w.options.read_timeout
          c (ground arith) in
      rw done (
        read_key-Safe (record w { console = c }) (d, k) updated
          (ending-read_character _ _ c d k done))

module _ ⦃env : Env⦄ ⦃names : Naming⦄ (accounts : Accounts) where
  after_loop-Safe :
      (rest : World → Turn) (a : Answers) (w : World)
      → ((w' : World) → IsOpen w' → Safe (rest w'))
      → IsTold a
      → IsOpen w
      → Safe (after_loop rest (pass accounts a w))
  unfolding after_loop pass ending
  after_loop-Safe rest a w h listed r = elim (loop_total accounts a w r.ready listed) [
    | inl (w', n, done, ready, keeps) ↦
        rw (done, pass)
          (h w' (record { ready = ready; open_session = keeps.quiet ∙ r.open_session }))
    | inr (c, done, once) ↦
        rw (done, pass)
          (
            omega arith,
            omega (arith, once (ap (λ p. p.0) r.open_session), ap (λ p. p.1) r.open_session),
          )
  ]

  -- Under the conditions on waits (Waits), a round from a state that can be updated with curses mode on,
  -- where libproc and the power source services answer (IsTold), goes on in such a state, or leaves the
  -- program with status 0 or 1 and curses mode ended once. It uses no null pointer, whatever else the
  -- answers are, and waits for a key no longer than its fuel.
  pub turn-Safe :
      (a : Answers) (w : World) → Waits env → IsTold a → IsOpen w → Safe (turn accounts a w)
  unfolding turn
  turn-Safe a w clock listed r =
      after_loop-Safe end_round a w (λ w' r'. end_round-Safe w' clock r') listed r

  Asked-Safe :
      (a : Answers) (w : World) (r : Outcome Console)
      → IsTold a
      → IsOpen w
      → Asked w.console r
      → Safe (elim r [
        | exited s c ↦ left s c
        | running c ↦ after_loop (λ w. going w) (pass accounts a (record w { console = c }))
      ])
  unfolding ending
  Asked-Safe a w (running c) listed r h =
      after_loop-Safe (λ w. going w) a _ (λ w' r'. r') listed (with_console w c r h)
  Asked-Safe a w (exited s c) listed r h =
      (omega (arith, h.0), omega (arith, h.1, ap (λ p. p.1) r.open_session))

  -- So does `main` up to its endless loop, the question to a user that is not root included.
  pub enter-Safe :
      (uid : ℕ) (a : Answers) (w : World) → IsTold a → IsOpen w → Safe (enter accounts uid a w)
  unfolding enter ending
  enter-Safe uid a w listed r =
      Asked-Safe a w _ listed r (prepare-Asked uid w.console (ap (λ p. p.0) r.open_session))
