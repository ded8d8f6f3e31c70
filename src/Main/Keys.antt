-- ===== src/Main/Keys.antt =====
-- main.cpp: the question, the wait for a key and the key leave the session of the console as it is, or
-- leave the program.
use std.Path.{subst}
use cctop.Prelude.{
  ℕ, suc, zero, ◌+◌, ◌≡◌, refl, ap, ◌∙◌, Bool, true, false, Option, none, some, [], arith, inl, inr,
  ◌==◌, ◌▷◌, Bool-cases, ltb,
}
use cctop.Terminal.{Env}
use cctop.Options.{Options, Action, action, perform, process, quit, redraw, ignored}
use cctop.Console.Ending.{abort-LeavesOnce}
use cctop.Console.{Console, call, clear, resize, update, show_cursor, print, move_to}
use cctop.Console.Ending.{endwins, abort-LeavesOnce}
use cctop.Console.Frame.{ending, ending-clear}
use cctop.Console.Input.{
  raw, read_blocking, read_character, read_loop, finish, skip, resized, key, Poll,
}
use cctop.Console.Session.{Outcome, running, exited, abort, leave, cleanup}
use cctop.Main.{ask, prepare, question, consent}

pub ending-update : (c : Console) → ending (update c) ≡ ending c
unfolding ending update call
ending-update c = refl

pub ending-raw : (on : Bool) (c : Console) → ending (raw on c) ≡ ending c
unfolding ending raw call
ending-raw on c = refl

pub ending-show_cursor : (on : Bool) (c : Console) → ending (show_cursor on c) ≡ ending c
unfolding ending show_cursor call
ending-show_cursor true c = refl
ending-show_cursor false c = refl

module _ ⦃env : Env⦄ where
  pub ending-resize : (c : Console) → ending (resize c) ≡ ending c
  unfolding ending resize clear move_to call
  ending-resize c = refl

  ending-read_blocking : (c : Console) → ending (read_blocking c).0 ≡ ending c
  unfolding ending read_blocking call
  ending-read_blocking c = refl

  -- Whatever a wait for a key leaves, the session of the console is this one.
  abbrev IsQuiet : Bool × ℕ → Option (Console × Option ℕ) → Type 0
  IsQuiet start none = Unit
  IsQuiet start (some (d, _)) = ending d ≡ start

  finish-IsQuiet :
      (start : Bool × ℕ) (fuel when : ℕ) (c : Console) (p : Poll)
      → ending c ≡ start
      → ((d : Console) → ending d ≡ start → IsQuiet start (read_loop fuel when d))
      → IsQuiet start (finish (read_loop fuel when) (λ d k. some (d, some k)) p c)
  unfolding finish
  finish-IsQuiet start fuel when c skip e ih = ih c e
  finish-IsQuiet start fuel when c resized e ih = ih (resize c) (ending-resize c ∙ e)
  finish-IsQuiet start fuel when c (key k) e ih = e

  read_loop-IsQuiet :
      (start : Bool × ℕ) (fuel when : ℕ) (c : Console)
      → ending c ≡ start
      → IsQuiet start (read_loop fuel when c)
  unfolding read_loop call ending endwins
  read_loop-IsQuiet start zero when c e = tt
  read_loop-IsQuiet start (suc fuel) when c e = elim (Bool-cases (ltb (env.millis c.calls) when)) [
    | inl early ↦
        rw (early, read_loop)
          (finish-IsQuiet start fuel when _ _ e (λ d. read_loop-IsQuiet start fuel when d))
    | inr late ↦ rw (late, read_loop) e
  ]

  -- Waiting for a key leaves the session of the console as it is.
  pub ending-read_character :
      (fuel read_timeout : ℕ) (c d : Console) (k : Option ℕ)
      → read_character fuel read_timeout c ≡ some (d, k)
      → ending d ≡ ending c
  unfolding read_character call ending endwins
  ending-read_character fuel read_timeout c d k e =
      subst (IsQuiet (ending c)) e
        (read_loop-IsQuiet (ending c) fuel (env.millis c.calls + read_timeout) _ refl)

-- Handling a key leaves the session as it is and keeps the time to wait, or leaves the program with
-- status 1 and one `endwin` more.
abbrev pub Handled : Options → Console → Outcome (Options × Console) → Type 0
Handled o c (running (o', c')) = (ending c' ≡ ending c) × (o'.read_timeout ≡ o.read_timeout)
Handled o c (exited s d) = (s ≡ 1) × (endwins d.calls ≡ endwins c.calls + 1)

perform-Handled :
    (a : Action) (o : Options) (c : Console) → c.aborting ≡ false → Handled o c (perform a o c)
unfolding perform abort leave
perform-Handled quit o c h = abort-LeavesOnce (Options × Console) c "QUIT\n" [] h
perform-Handled redraw o c h = (ending-clear (clear c) ∙ ending-clear c, refl)
perform-Handled ignored o c h = (refl, refl)
perform-Handled a o c h = (ending-clear c, refl)

pub process-Handled :
    (k : ℕ) (o : Options) (c : Console) → c.aborting ≡ false → Handled o c (process k o c)
unfolding process
process-Handled k o c h = perform-Handled (action k) o c h

-- The question lets the program go on in the same session, or leaves it with status 0 and one
-- `endwin` more.
abbrev pub Asked : Console → Outcome Console → Type 0
Asked c (running d) = ending d ≡ ending c
Asked c (exited s d) = (s ≡ 0) × (endwins d.calls ≡ endwins c.calls + 1)

consent-Asked :
    (c d : Console) (k : ℕ) → c.aborting ≡ false → ending d ≡ ending c → Asked c (consent (d, k))
unfolding consent leave cleanup call endwins ending
consent-Asked c d k h e = ground (arith, ap (λ p. p.0) e, ap (λ p. p.1) e)

shown-Asked :
    (c d : Console) (r : Outcome Console)
    → ending d ≡ ending c
    → Asked d r
    → Asked c (elim r [
      | running k ↦ running (k ▷ raw true ▷ show_cursor false)
      | exited s k ↦ exited s k
    ])
unfolding ending
shown-Asked c d (running k) e a = ending-show_cursor false (raw true k) ∙ ending-raw true k ∙ a ∙ e
shown-Asked c d (exited s k) e a = ground (arith, a, ap (λ p. p.1) e)

module _ ⦃env : Env⦄ where
  ending-question : (c : Console) → ending (question c).0 ≡ ending c
  unfolding ending question read_blocking call print move_to endwins
  ending-question c = refl

  ask-Asked : (uid : ℕ) (c : Console) → c.aborting ≡ false → Asked c (ask uid c)
  unfolding ask
  ask-Asked uid c h = elim (Bool-cases (uid == 0)) [
    | inl root ↦ rw root refl
    | inr user ↦
        rw (user, ask) (consent-Asked c (question c).0 (question c).1 h (ending-question c))
  ]

  -- Unless the console has been cleaned up before, `main` up to the first pass goes on with the
  -- session as it is, or leaves with status 0 and one `endwin` more.
  pub prepare-Asked : (uid : ℕ) (c : Console) → c.aborting ≡ false → Asked c (prepare uid c)
  unfolding prepare ending
  prepare-Asked uid c h =
      shown-Asked c (c ▷ clear ▷ raw true) _ (ending-raw true (clear c) ∙ ending-clear c)
        (ask-Asked uid _ (ap (λ p. p.0) (ending-raw true (clear c) ∙ ending-clear c) ∙ h))
