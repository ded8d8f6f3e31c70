-- ===== src/Main/Restored.antt =====
-- main.cpp: from its start on, the program writes each round with nothing switched on before it.
use cctop.Prelude.{
  ℕ, suc, zero, ◌≡◌, refl, ◌∙◌, Bool, true, false, Option, none, some, ◌▷◌, Bool-cases, inl, inr,
  ◌==◌, ltb, ◌||◌,
}
use cctop.Terminal.{Env}
use cctop.Options.{Action, action, perform, process, quit, redraw, ignored}
use cctop.Console.{Console, call, clear, resize, update, show_cursor, print, move_to}
use cctop.Console.Pen.{pen, pen_of, IsPlain, pen-clear}
use cctop.Console.Input.{
  raw, read_blocking, read_character, read_loop, finish, skip, resized, key, Poll,
}
use cctop.Console.Session.{Outcome, running, exited, abort, leave}
use cctop.Cpu.{Naming}
use cctop.Loop.{World, Answers, loop}
use cctop.Loop.Restored.{Restores, loop-Restores}
use cctop.Main.{
  Turn, going, left, crashed, unfinished, after_loop, pass, handle, read_key, end_round, turn,
  enter, prepare, ask, question, consent,
}
use cctop.ProcessList.Users.{Accounts}

pen-update : (c : Console) → pen (update c) ≡ pen c
unfolding pen update call
pen-update c = refl

pen-raw : (on : Bool) (c : Console) → pen (raw on c) ≡ pen c
unfolding pen raw call
pen-raw on c = refl

pen-show_cursor : (on : Bool) (c : Console) → pen (show_cursor on c) ≡ pen c
unfolding pen show_cursor call
pen-show_cursor true c = refl
pen-show_cursor false c = refl

-- Where the program goes on, nothing is switched on.
abbrev pub Clean : Turn → Type 0
Clean (going w) = IsPlain w.console
Clean (left status c) = Unit
Clean crashed = Unit
Clean unfinished = Unit

-- So it does after a wait for a key.
abbrev Waited : Option (Console × Option ℕ) → Type 0
Waited none = Unit
Waited (some (d, _)) = IsPlain d

-- And where the question lets it go on.
abbrev Cleaned : Outcome Console → Type 0
Cleaned (running c) = IsPlain c
Cleaned (exited s c) = Unit

module _ ⦃env : Env⦄ where
  pen-resize : (c : Console) → pen (resize c) ≡ pen c
  unfolding pen resize clear move_to call
  pen-resize c = refl

  finish-Waited :
      (fuel when : ℕ) (c : Console) (p : Poll)
      → IsPlain c
      → ((d : Console) → IsPlain d → Waited (read_loop fuel when d))
      → Waited (finish (read_loop fuel when) (λ d k. some (d, some k)) p c)
  unfolding finish
  finish-Waited fuel when c skip h ih = ih c h
  finish-Waited fuel when c resized h ih = ih (resize c) (pen-resize c ∙ h)
  finish-Waited fuel when c (key k) h ih = h

  read_loop-Waited : (fuel when : ℕ) (c : Console) → IsPlain c → Waited (read_loop fuel when c)
  unfolding read_loop call pen pen_of
  read_loop-Waited zero when c h = tt
  read_loop-Waited (suc fuel) when c h = elim (Bool-cases (ltb (env.millis c.calls) when)) [
    | inl early ↦
        rw (early, read_loop) (finish-Waited fuel when _ _ h (λ d. read_loop-Waited fuel when d))
    | inr late ↦ rw (late, read_loop) h
  ]

  read_character-Waited :
      (fuel read_timeout : ℕ) (c : Console)
      → IsPlain c
      → Waited (read_character fuel read_timeout c)
  unfolding read_character call pen pen_of
  read_character-Waited fuel read_timeout c h = read_loop-Waited fuel _ _ h

perform-Clean :
    (a : Action) (w : World)
    → IsPlain w.console
    → Clean (elim (perform a w.options w.console) [
      | exited s con ↦ left s con
      | running r ↦ going (record w { options = r.0; console = r.1 })
    ])
unfolding perform abort leave
perform-Clean quit w h = tt
perform-Clean redraw w h = pen-clear (clear w.console) ∙ pen-clear w.console ∙ h
perform-Clean ignored w h = h
perform-Clean a w h = pen-clear w.console ∙ h

handle-Clean : (k : ℕ) (w : World) → IsPlain w.console → Clean (handle k w)
unfolding handle process
handle-Clean k w h = perform-Clean (action k) w h

read_key-Clean : (w : World) (a : Option (Console × Option ℕ)) → Waited a → Clean (read_key w a)
unfolding read_key
read_key-Clean w none h = tt
read_key-Clean w (some (c, none)) h = h
read_key-Clean w (some (c, some k)) h = handle-Clean k (record w { console = c }) h

module _ ⦃env : Env⦄ where
  end_round-Clean : (w : World) → IsPlain w.console → Clean (end_round w)
  unfolding end_round
  end_round-Clean w h =
      read_key-Clean (record w { console = update w.console }) _
        (read_character-Waited _ _ _ (pen-update w.console ∙ h))

module _ ⦃env : Env⦄ ⦃names : Naming⦄ (accounts : Accounts) where
  after_loop-Clean :
      (rest : World → Turn) (r : Outcome (Option (World × ℕ)))
      → Restores r
      → ((w : World) → IsPlain w.console → Clean (rest w))
      → Clean (
          after_loop rest (elim r [
            | exited s c ↦ exited s c
            | running none ↦ running none
            | running (some r) ↦ running (some r.0)
          ]))
  unfolding after_loop
  after_loop-Clean rest (exited s c) p h = tt
  after_loop-Clean rest (running none) p h = tt
  after_loop-Clean rest (running (some (w, n))) p h = h w p

  pub turn-Clean : (a : Answers) (w : World) → IsPlain w.console → Clean (turn accounts a w)
  unfolding turn pass
  turn-Clean a w h =
      after_loop-Clean end_round (loop accounts a w) (loop-Restores accounts a w h)
        (λ w' h'. end_round-Clean w' h')

module _ ⦃env : Env⦄ where
  pen-question : (c : Console) → pen (question c).0 ≡ pen c
  unfolding pen question read_blocking call print move_to pen_of
  pen-question c = refl

  consent-Cleaned : (d : Console) (k : ℕ) → IsPlain d → Cleaned (consent (d, k))
  unfolding consent leave
  consent-Cleaned d k h = elim (Bool-cases (k == b'N' || k == b'n')) [
    | inl refused ↦ rw (refused, consent) tt
    | inr agreed ↦ rw (agreed, consent) h
  ]

  ask-Cleaned : (uid : ℕ) (c : Console) → IsPlain c → Cleaned (ask uid c)
  unfolding ask
  ask-Cleaned uid c h = elim (Bool-cases (uid == 0)) [
    | inl root ↦ rw root h
    | inr user ↦ rw (user, ask) (consent-Cleaned (question c).0 (question c).1 (pen-question c ∙ h))
  ]

  shown-Cleaned :
      (r : Outcome Console)
      → Cleaned r
      → Cleaned (elim r [
        | running k ↦ running (k ▷ raw true ▷ show_cursor false)
        | exited s k ↦ exited s k
      ])
  shown-Cleaned (running k) h = pen-show_cursor false (raw true k) ∙ pen-raw true k ∙ h
  shown-Cleaned (exited s k) h = tt

  prepare-Cleaned : (uid : ℕ) (c : Console) → IsPlain c → Cleaned (prepare uid c)
  unfolding prepare
  prepare-Cleaned uid c h =
      shown-Cleaned _ (ask-Cleaned uid _ (pen-raw true (clear c) ∙ pen-clear c ∙ h))

module _ ⦃env : Env⦄ ⦃names : Naming⦄ (accounts : Accounts) where
  prepared-Clean :
      (a : Answers) (w : World) (r : Outcome Console)
      → Cleaned r
      → Clean (elim r [
        | exited s c ↦ left s c
        | running c ↦ after_loop (λ w. going w) (pass accounts a (record w { console = c }))
      ])
  unfolding pass
  prepared-Clean a w (running c) h =
      after_loop-Clean accounts (λ w. going w) _
        (loop-Restores accounts a (record w { console = c }) h) (λ w' h'. h')
  prepared-Clean a w (exited s c) h = tt

  pub enter-Clean :
      (uid : ℕ) (a : Answers) (w : World) → IsPlain w.console → Clean (enter accounts uid a w)
  unfolding enter
  enter-Clean uid a w h = prepared-Clean a w _ (prepare-Cleaned uid w.console h)
