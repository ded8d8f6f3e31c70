-- ===== src/Main/Quitting.antt =====
-- main.cpp: a key that quits ends the program in the round in which it is read.
use std.Path.{subst}
use cctop.Prelude.{
  ℕ, suc, ◌+◌, ◌<◌, ◌≡◌, refl, ap, ◌∙◌, true, false, some, arith, inl, inr, ◌∷◌, ltb, ◌▷◌, sym, [],
}
use cctop.Terminal.{Env, Trace, timeout, gettimeofday, getch, err}
use cctop.Console.{Console, update, call, text}
use cctop.Console.Frame.{ending}
use cctop.Console.Ending.{endwins, abort-LeavesOnce}
use cctop.Console.Input.{read_character, read_loop, finish, classify, key}
use cctop.Console.Session.{abort, leave, cleanup}
use cctop.Cpu.{Naming}
use cctop.Loop.{World, Answers}
use cctop.Loop.Pass.{loop_total}
use cctop.Options.{Options, action, quit, process, perform}
use cctop.ProcessList.Users.{Accounts}
use cctop.Loop.Ready.{IsTold}
use cctop.Main.{left, after_loop, pass, handle, read_key, end_round, turn}
use cctop.Main.Keys.{ending-read_character, ending-update}
use cctop.Main.Safety.{IsOpen}

-- Each `getch` answers with the key `k`, and setting up the wait takes less than `wait` milliseconds.
pub record Insists (env : Env) (k wait : ℕ) : Type 0 where
  pub pressed : (t : Trace) → env.get_char t ≡ some k
  pub prompt : (t : Trace) → env.millis (timeout 500 ∷ gettimeofday ∷ t) < env.millis t + wait

classify-quit : (k : ℕ) → action k ≡ quit → classify (some k) ≡ key k
unfolding action classify
classify-quit k q = ground arith

module _ ⦃env : Env⦄ where
  -- The first poll reads the key.
  read_insisted :
      (fuel wait k : ℕ) (c : Console)
      → Insists env k wait
      → action k ≡ quit
      → (d : Console) × (read_character (suc fuel) wait c ≡ some (d, some k))
  unfolding read_character read_loop finish call
  read_insisted fuel wait k c u q =
      let early : ltb (env.millis (timeout 500 ∷ gettimeofday ∷ c.calls))
            (env.millis c.calls + wait)
          ≡ true =
        ground (arith, u.prompt c.calls) in
      (
        c ▷ call gettimeofday ▷ call (timeout 500) ▷ call gettimeofday ▷ call getch,
        rw
            (
              early,
              read_loop,
              u.pressed (gettimeofday ∷ timeout 500 ∷ gettimeofday ∷ c.calls),
              classify-quit k q,
              finish,
            )
            refl,
      )

  -- A key that quits is handled by leaving with status 1.
  handle-quit :
      ⦃names : Naming⦄ (k : ℕ) (w : World)
      → action k ≡ quit
      → ending w.console ≡ (false, 0)
      → (c : Console) × (handle k w ≡ left 1 c) × (endwins c.calls ≡ 1)
  unfolding handle process perform abort leave ending
  handle-quit k w q e =
      let (_, once) =
        abort-LeavesOnce (Options × Console) w.console "QUIT\n" [] (ap (λ p. p.0) e) in
      (
        cleanup (w.console ▷ cleanup ▷ call (err (text "QUIT\n" []))),
        rw (handle, process, q, perform) refl,
        omega (arith, once, ap (λ p. p.1) e),
      )

  end_round-quit :
      ⦃names : Naming⦄ (k : ℕ) (w : World)
      → Insists env k w.options.read_timeout
      → action k ≡ quit
      → ending w.console ≡ (false, 0)
      → (c : Console) × (end_round w ≡ left 1 c) × (endwins c.calls ≡ 1)
  unfolding end_round read_key
  end_round-quit k w u q e =
      let c = update w.console in
      let (d, done) =
        read_insisted (w.options.read_timeout + env.spare) w.options.read_timeout k c u q in
      let same = ending-read_character _ _ c d (some k) done ∙ ending-update w.console ∙ e in
      rw (done, read_key) (handle-quit k (record w { console = d }) q same)

  -- If the user keeps pressing ^C, `q` or `Q`, and the wait is set up in less than `read_timeout`
  -- milliseconds, then any round from a state that can be updated with curses mode on, where libproc
  -- answers about a process with its number and the power source services describe the sources
  -- (IsTold), is the last one: the program leaves with status 1 and curses mode ended once.
  pub turn_quits :
      ⦃names : Naming⦄ (accounts : Accounts) (k : ℕ) (a : Answers) (w : World)
      → Insists env k w.options.read_timeout
      → action k ≡ quit
      → IsTold a
      → IsOpen w
      → (c : Console) × (turn accounts a w ≡ left 1 c) × (endwins c.calls ≡ 1)
  unfolding turn after_loop pass ending
  turn_quits accounts k a w u q listed r = elim (loop_total accounts a w r.ready listed) [
    | inl (w', n, done, _, keeps) ↦
        let (c, leaves, once) =
          end_round-quit k w' (subst (Insists env k) (sym keeps.timeout) u) q
            (keeps.quiet ∙ r.open_session) in
        (c, rw (done, pass) leaves, once)
    | inr (c, done, once) ↦ (
      c,
      rw (done, pass) refl,
      omega (arith, once (ap (λ p. p.0) r.open_session), ap (λ p. p.1) r.open_session),
    )
  ]
