-- ===== src/Cpu/Bar.antt =====
-- macos/CPU.cpp: the loop that fills up the bar of a core ends, and by its own test.
use cctop.Prelude.{
  ◌∙◌, ◌⊎◌, ◌&&◌, ℕ, zero, suc, ◌+◌, ◌≤◌, ◌<◌, Bool, true, false, ◌≡◌, ap, arith, Bool-cases, inl,
  inr,
}
use cctop.Prelude.Int.{pos}
use cctop.Terminal.{Double, Env, lit, of_int, mul, div, sub}
use cctop.Cpu.Print.{blanks, bar_fuel, bar_left, bar_use}

module _ ⦃env : Env⦄ where
  -- The test of the loop, `cnt < left`.
  abbrev test : ℕ → Double → Bool
  test cnt left = env.lt (of_int (pos cnt)) left

  -- A number of rounds from `cnt` on after which the test fails for the first time.
  record Ends (cnt k : ℕ) (left : Double) : Type 0 where
    stops : test (cnt + k) left ≡ false
    runs : (j : ℕ) → j < k → test (cnt + j) left ≡ true

  at_once : (cnt : ℕ) (left : Double) → test cnt left ≡ false → Ends cnt 0 left
  at_once cnt left done = record {
    stops = ap (λ n. test n left) (omega arith) ∙ done;
    runs = λ j h. absurd (omega (arith, h));
  }

  one_more :
      (cnt k : ℕ) (left : Double)
      → test cnt left ≡ true
      → Ends (cnt + 1) k left
      → Ends cnt (suc k) left
  one_more cnt k left more e = record {
    stops = ap (λ n. test n left) (omega arith) ∙ e.stops;
    runs = λ j h. first_or_later j h;
  }
    where
      first_or_later : (j : ℕ) → j < suc k → test (cnt + j) left ≡ true
      first_or_later zero h = ap (λ n. test n left) (omega arith) ∙ more
      first_or_later (suc j) h = ap (λ n. test n left) (omega arith) ∙ e.runs j (omega (arith, h))

  blanks-Ends :
      (fuel cnt m : ℕ) (left : Double)
      → m < fuel
      → test (cnt + m) left ≡ false
      → (blanks fuel cnt left ≤ m) × Ends cnt (blanks fuel cnt left) left
  unfolding blanks
  blanks-Ends zero cnt m left h e = absurd (omega (arith, h))
  blanks-Ends (suc fuel) cnt zero left h e =
      let done : test cnt left ≡ false = ap (λ n. test n left) (omega arith) ∙ e in
      rw (done, blanks) (omega arith, at_once cnt left done)
  blanks-Ends (suc fuel) cnt (suc m) left h e = elim (Bool-cases (test cnt left)) [
    | inl more ↦
        let (few, ends) =
          blanks-Ends fuel (cnt + 1) m left (omega (arith, h))
            (ap (λ n. test n left) (omega arith) ∙ e) in
        rw (more, blanks) (omega (arith, few), one_more cnt _ left more ends)
    | inr done ↦ rw (done, blanks) (omega arith, at_once cnt left done)
  ]

  before_or_after : (j k : ℕ) → (j < k) ⊎ (k ≤ j)
  before_or_after j k = ground arith

  -- What the arithmetic of doubles is relied on for, all of it also true of values that are no numbers:
  -- a literal is not below 0, and neither is a product or a quotient of what is not below 0 by one; a
  -- whole number is not below its literal; and where `x` is not above `z`
  -- and `y` is not below 0, `x - y` is not above `z`.
  pub record Computes : Type 0 where
    pub times :
        (x : Double) (n : ℕ)
        → env.lt x (lit 0 0) ≡ false
        → env.lt (mul x (lit n 0)) (lit 0 0) ≡ false
    pub over :
        (x : Double) (n : ℕ)
        → env.lt x (lit 0 0) ≡ false
        → env.lt (div x (lit n 0)) (lit 0 0) ≡ false
    pub whole : (n : ℕ) → env.lt (of_int (pos n)) (lit n 0) ≡ false
    pub literal : (n : ℕ) → env.lt (lit n 0) (lit 0 0) ≡ false
    pub less :
        (z x y : Double)
        → env.lt z x ≡ false
        → env.lt y (lit 0 0) ≡ false
        → env.lt z (sub x y) ≡ false

  bar_left-le :
      (computes : Computes) (busy : Double)
      → env.lt busy (lit 0 0) ≡ false
      → env.lt (of_int (pos 20)) (bar_left busy) ≡ false
  unfolding bar_left bar_use
  bar_left-le computes busy h =
      let full = computes.times (div busy (lit 10 0)) 2 (computes.over busy 10 h) in
      let left =
        computes.less (of_int (pos 20)) (lit 20 0) (bar_use busy) (computes.whole 20) full in
      let shorter =
        computes.less (of_int (pos 20)) (sub (lit 20 0) (bar_use busy)) (lit 1 0) left
          (computes.literal 1) in
      elim (Bool-cases (env.lt (lit 0 0) busy && env.eq (bar_use busy) (lit 0 0))) [
        | inl one ↦ rw (one, bar_left) shorter
        | inr none ↦ rw (none, bar_left) left
      ]

  -- The loop that writes the blanks of the bar of a core, whose use is not below 0: it ends after at
  -- most 20 rounds, by its test, which has held in each round `j` before that.
  pub bar_ends :
      (computes : Computes) (busy : Double) (j : ℕ)
      → env.lt busy (lit 0 0) ≡ false
      → let k = blanks bar_fuel 0 (bar_left busy) in
        (k ≤ 20)
        × (env.lt (of_int (pos k)) (bar_left busy) ≡ false)
        × ((env.lt (of_int (pos j)) (bar_left busy) ≡ true) ⊎ (k ≤ j))
  bar_ends computes busy j h =
      let left = bar_left busy in
      let (few, ends) =
        blanks-Ends bar_fuel 0 20 left (omega arith) (bar_left-le computes busy h) in
      (
        few,
        ap (λ n. test n left) (omega arith) ∙ ends.stops,
        elim (before_or_after j (blanks bar_fuel 0 left)) [
          | inl before ↦ inl (ap (λ n. test n left) (omega arith) ∙ ends.runs j before)
          | inr past ↦ inr past
        ],
      )
