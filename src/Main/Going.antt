-- ===== src/Main/Going.antt =====
-- main.cpp: the program goes on as long as it is not told to leave.
use std.Path.{subst}
use mathlib.Core.Logic.{◌≢◌}
use cctop.Prelude.{
  ℕ, zero, suc, ◌≡◌, refl, ap, ◌∙◌, Option, none, some, List, [], ◌∷◌, map, arith, Bool-cases, inl,
  inr, ltb, ◌==◌, ◌+◌,
}
use cctop.Terminal.{Env, Trace}
use cctop.Options.{
  Action, quit, redraw, cpu, memory, virtual_memory, disk, network, processes, main, help, ignored,
  action, perform, process,
}
use cctop.Console.{Console, update, resize}
use cctop.Console.Input.{key_resize, classify, finish, read_loop, read_character}
use cctop.Console.Session.{running, exited}
use cctop.Console.Waiting.{Waits, read_character_total}
use cctop.Cpu.{Naming}
use cctop.Loop.{World, Answers, loop}
use cctop.Loop.Ready.{IsReady}
use cctop.Loop.Pass.{loop_lem, loop_small, window_cases}
use cctop.Network.{Message, messages}
use cctop.ProcessList.Users.{Accounts}
use cctop.Loop.Ready.{IsTold}
use cctop.Main.{
  Turn, going, left, crashed, unfinished, after_loop, pass, handle, read_key, end_round, turn,
}
use cctop.Main.Safety.{IsOpen, Safe, turn-Safe}
use cctop.Main.Program.{round, continue, step, steps}

-- No key that `getch` answers is one that quits.
pub record NeverQuits (env : Env) : Type 0 where
  pub other : (t : Trace) (k : ℕ) → env.get_char t ≡ some k → action k ≢ quit

-- libproc answers for the pids that it is asked for, the power source services describe the sources,
-- and sysctl tells the interfaces.
pub record IsAnswered (a : Answers) : Type 0 where
  pub listed : IsTold a
  pub told : List Message
  pub interfaces : a.interfaces ≡ messages told

abbrev pub AllAnswered : List Answers → Type 0
AllAnswered [] = Unit
AllAnswered (a ∷ rest) = IsAnswered a × AllAnswered rest

-- A wait has ended with no key that quits.
abbrev Harmless : Option (Console × Option ℕ) → Type 0
Harmless none = Unit
Harmless (some (c, none)) = Unit
Harmless (some (c, some k)) = action k ≢ quit

module _ ⦃env : Env⦄ (user : NeverQuits env) where
  finish-Harmless :
      (fuel when : ℕ) (c : Console) (p : Option ℕ)
      → ((k : ℕ) → p ≡ some k → action k ≢ quit)
      → ((d : Console) → Harmless (read_loop fuel when d))
      → Harmless (finish (read_loop fuel when) (λ d k. some (d, some k)) (classify p) c)
  unfolding finish classify
  finish-Harmless fuel when c none h ih = ih c
  finish-Harmless fuel when c (some k) h ih = elim (Bool-cases (k == 0)) [
    | inl nul ↦ rw nul (ih c)
    | inr real ↦ elim (Bool-cases (k == key_resize)) [
      | inl new_size ↦ rw (real, new_size) (ih (resize c))
      | inr other ↦ rw (real, other) (h k refl)
    ]
  ]

  read_loop-Harmless : (fuel when : ℕ) (c : Console) → Harmless (read_loop fuel when c)
  unfolding read_loop
  read_loop-Harmless zero when c = tt
  read_loop-Harmless (suc fuel) when c = elim (Bool-cases (ltb (env.millis c.calls) when)) [
    | inl early ↦
        rw (early, read_loop)
          (finish-Harmless fuel when _ _ (λ k e. user.other _ k e)
            (λ d. read_loop-Harmless fuel when d))
    | inr late ↦ rw (late, read_loop) tt
  ]

  read_character-Harmless :
      (fuel read_timeout : ℕ) (c : Console) → Harmless (read_character fuel read_timeout c)
  unfolding read_character
  read_character-Harmless fuel read_timeout c = read_loop-Harmless fuel _ _

-- The program goes on.
abbrev Goes : Turn → Type 0
Goes (going w) = Unit
Goes _ = ⊥

performs-Goes :
    (a : Action) (w : World)
    → a ≢ quit
    → Goes (elim (perform a w.options w.console) [
      | exited s con ↦ left s con
      | running r ↦ going (record w { options = r.0; console = r.1 })
    ])
unfolding perform
performs-Goes quit w h = absurd (h refl)
performs-Goes redraw w h = tt
performs-Goes cpu w h = tt
performs-Goes memory w h = tt
performs-Goes virtual_memory w h = tt
performs-Goes disk w h = tt
performs-Goes network w h = tt
performs-Goes processes w h = tt
performs-Goes main w h = tt
performs-Goes help w h = tt
performs-Goes ignored w h = tt

read_key-Goes :
    (w : World) (a : Console × Option ℕ) → Harmless (some a) → Goes (read_key w (some a))
unfolding read_key handle process
read_key-Goes w (c, none) h = tt
read_key-Goes w (c, some k) h = performs-Goes (action k) (record w { console = c }) h

module _ ⦃env : Env⦄ (clock : Waits env) (user : NeverQuits env) where
  end_round-Goes : (w : World) → Goes (end_round w)
  unfolding end_round
  end_round-Goes w =
      let c = update w.console in
      let (a, done, _) =
        read_character_total clock (suc (w.options.read_timeout + env.spare)) w.options.read_timeout
          c (ground arith) in
      rw done (
        read_key-Goes (record w { console = c }) a
          (subst Harmless done (
            read_character-Harmless user (suc (w.options.read_timeout + env.spare))
              w.options.read_timeout c)))

module _ ⦃env : Env⦄ ⦃names : Naming⦄ (accounts : Accounts) where
  loop_answered :
      (a : Answers) (w : World)
      → IsAnswered a
      → IsReady w
      → (w' : World) × (n : ℕ) × (loop accounts a w ≡ running (some (w', n)))
  loop_answered a w answered r = elim (window_cases w.console.width w.console.height) [
    | inl (wide, high) ↦
        let (w', n, done, _, _, _) =
          loop_lem accounts a answered.told w r answered.listed answered.interfaces wide high in
        (w', n, done)
    | inr tight ↦ let (w', done, _, _) = loop_small accounts a w tight in (w', 0, done)
  ]

  turn-Goes :
      (a : Answers) (w : World)
      → Waits env
      → NeverQuits env
      → IsAnswered a
      → IsReady w
      → Goes (turn accounts a w)
  unfolding turn after_loop pass
  turn-Goes a w clock user answered r =
      let (w', n, done) = loop_answered a w answered r in
      rw (done, pass) (end_round-Goes clock user w')

  Goes-IsOpen : (t : Turn) → Goes t → Safe t → (w : World) × (t ≡ going w) × IsOpen w
  Goes-IsOpen (going w) g s = (w, refl, s)
  Goes-IsOpen (left status c) g s = absurd g
  Goes-IsOpen crashed g s = absurd g
  Goes-IsOpen unfinished g s = absurd g

  -- The program leaves only when it is told to: from a state that can be updated with curses mode on,
  -- under the conditions on waits (Waits), if no key that is pressed is one that quits, and if in every
  -- round libproc answers about a process with its number, the power source services describe the
  -- sources (IsTold) and sysctl tells the interfaces, then after any number of rounds the program goes
  -- on, in such a state again.
  pub rounds_go_on :
      (answers : List Answers) (w : World)
      → Waits env
      → NeverQuits env
      → AllAnswered answers
      → IsOpen w
      → (w' : World) × (steps accounts (map (λ a. round a) answers) w ≡ going w') × IsOpen w'
  unfolding steps step continue
  rounds_go_on [] w clock user h r = (w, refl, r)
  rounds_go_on (a ∷ answers) w clock user (h, rest) r =
      let (w1, done, ready) =
        Goes-IsOpen (turn accounts a w) (turn-Goes a w clock user h r.ready)
          (turn-Safe accounts a w clock h.listed r) in
      let (w2, more, ready2) = rounds_go_on answers w1 clock user rest ready in
      (w2, ap (continue (steps accounts (map (λ b. round b) answers))) done ∙ more, ready2)
