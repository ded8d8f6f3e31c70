-- ===== src/Console/Waiting.antt =====
-- lib/Console.cpp: waiting for a key ends, and with what.
use cctop.Prelude.{
  ◌∙◌, ◌⊎◌, ◌||◌, Bool, true, false, [], if◌then◌else◌, ℕ, zero, suc, ◌+◌, ◌≤◌, ◌<◌, Option, none,
  some, ◌∷◌, ◌≡◌, refl, ◌≢◌, arith, ltb, ltb→lt, ◌==◌, ◌▷◌, Bool-cases, inl, inr,
}
use cctop.Terminal
use cctop.Terminal.{Call, Trace, Env, getch, gettimeofday, timeout}
use cctop.Console.{Console, call, clear, move_to, resize}
use cctop.Console.Input.{key_resize, classify, finish, read_loop, read_character}

-- A poll that the `switch` of the loop ignores although `getch` has answered: 0, or KEY_RESIZE.
abbrev is_skip : Option ℕ → Bool
is_skip none = false
is_skip (some k) = k == 0 || k == key_resize

-- How many of the polls of a trace were such.
abbrev pub skips : Env → Trace → ℕ
skips env [] = 0
skips env (getch ∷ t) = (if is_skip (env.get_char t) then 1 else 0) + skips env t
skips env (_ ∷ t) = skips env t

-- How waits go. `now` is a time that never goes back, and a `getch` without an answer takes a
-- millisecond of it at least (`timeout(500)` has it wait that many milliseconds for one). The clock of
-- `gettimeofday` may be set at any point, forward or back, but is off by no more than `off`
-- milliseconds; and `getch` may answer 0 and KEY_RESIZE at once, but not for ever. Both together are
-- within what the fuel has to spare.
pub record Waits (env : Env) : Type 0 where
  pub now : Trace → ℕ
  pub off : ℕ
  pub later : (k : Call) (t : Trace) → now t ≤ now (k ∷ t)
  pub waited : (t : Trace) → env.get_char t ≡ none → now t < now (getch ∷ t)
  pub near : (t : Trace) → (env.millis t ≤ now t + off) × (now t ≤ env.millis t + off)
  pub few : (t : Trace) → skips env t + off + off ≤ env.spare

-- A key is neither 0 nor KEY_RESIZE; without a key the clock had reached `when`.
abbrev pub Answers : Env → ℕ → Console × Option ℕ → Type 0
Answers env when (c, none) = (t : Trace) × (c.calls ≡ gettimeofday ∷ t) × (when ≤ env.millis t)
Answers env when (c, some k) = (k ≢ 0) × (k ≢ key_resize)

abbrev Answered : Env → ℕ → Option (Console × Option ℕ) → Type 0
Answered env when r = (a : Console × Option ℕ) × (r ≡ some a) × Answers env when a

module _ ⦃env : Env⦄ (clock : Waits env) where
  -- The time, and the polls that were ignored. It never goes back.
  progress : Trace → ℕ
  progress t = clock.now t + skips env t

  resize-later : (c : Console) → progress c.calls ≤ progress (resize c).calls
  unfolding progress resize clear move_to call
  resize-later c = omega (
    arith,
    clock.later Terminal.clear c.calls,
    clock.later (Terminal.move 0 0) (Terminal.clear ∷ c.calls),
  )

  -- A poll that goes on has made progress.
  polled-later :
      (t : Trace) (p : Option ℕ)
      → env.get_char (gettimeofday ∷ t) ≡ p
      → (p ≡ none) ⊎ (is_skip p ≡ true)
      → progress t < progress (getch ∷ gettimeofday ∷ t)
  unfolding progress
  polled-later t p e (inl none_yet) =
      omega (arith, clock.later gettimeofday t, clock.waited (gettimeofday ∷ t) (e ∙ none_yet))
  polled-later t p e (inr skipped) =
      rw (e, skipped)
        (omega (arith, clock.later gettimeofday t, clock.later getch (gettimeofday ∷ t)))

  finish_total :
      (fuel when start : ℕ) (c : Console) (p : Option ℕ)
      → ((p ≡ none) ⊎ (is_skip p ≡ true) → start < progress c.calls)
      → ((d : Console) → start < progress d.calls → Answered env when (read_loop fuel when d))
      → Answered env when (finish (read_loop fuel when) (λ d k. some (d, some k)) (classify p) c)
  unfolding finish classify
  finish_total fuel when start c none later ih = ih c (later (inl refl))
  finish_total fuel when start c (some k) later ih = elim (Bool-cases (k == 0)) [
    | inl nul ↦ rw nul (ih c (later (inr (rw nul refl))))
    | inr real ↦ elim (Bool-cases (k == key_resize)) [
      | inl new_size ↦
          rw (real, new_size)
            (ih (resize c) (omega (arith, resize-later c, later (inr (rw (real, new_size) refl)))))
      | inr other ↦ rw (real, other) ((c, some k), refl, ((λ e. ground arith), (λ e. ground arith)))
    ]
  ]

  -- The fuel is not used up before the clock has reached `when`.
  fuel_left :
      (fuel when : ℕ) (c : Console)
      → ltb (env.millis c.calls) when ≡ true
      → when + env.spare < progress c.calls + clock.off + suc fuel
      → 0 < fuel
  unfolding progress
  fuel_left fuel when c early h =
      let before : env.millis c.calls < when = ltb→lt (env.millis c.calls) when early in
      omega (arith, h, before, (clock.near c.calls).1, clock.few c.calls)

  read_loop_total :
      (fuel when : ℕ) (c : Console)
      → 0 < fuel
      → when + env.spare < progress c.calls + clock.off + fuel
      → Answered env when (read_loop fuel when c)
  unfolding read_loop call
  read_loop_total zero when c h k = absurd (omega arith)
  read_loop_total (suc fuel) when c h k = elim (Bool-cases (ltb (env.millis c.calls) when)) [
    | inl early ↦
        rw (early, read_loop)
          (finish_total fuel when (progress c.calls) _ _ (polled-later c.calls _ refl) (λ d later.
            read_loop_total fuel when d (fuel_left fuel when c early k) (omega (arith, later, k))))
    | inr late ↦
        rw (late, read_loop) ((c ▷ call gettimeofday, none), refl, (c.calls, refl, ground arith))
  ]

  -- Under these conditions, waiting for a key ends within the fuel: with a key that is neither 0 nor
  -- KEY_RESIZE, or with none once the clock has reached the time of the call plus `read_timeout`.
  -- Enough fuel is one more than the milliseconds of `read_timeout` and what there is to spare.
  pub read_character_total :
      (fuel read_timeout : ℕ) (c : Console)
      → read_timeout + env.spare < fuel
      → (a : Console × Option ℕ) × (read_character fuel read_timeout c ≡ some a)
        × Answers env (env.millis c.calls + read_timeout) a
  unfolding read_character call progress
  read_character_total fuel read_timeout c h =
      read_loop_total fuel (env.millis c.calls + read_timeout) _ (omega arith) (
        omega (
          arith,
          (clock.near c.calls).0,
          clock.later gettimeofday c.calls,
          clock.later (timeout 500) (gettimeofday ∷ c.calls),
        ))
