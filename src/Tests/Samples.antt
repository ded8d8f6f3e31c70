-- ===== src/Tests/Samples.antt =====
-- A terminal, a way to name cores, and readings to try the theorems on.
use Prim.Native.String.{◌++◌ as ◌+++◌, len}
use package.text.Mathlib.TextPositions.{len-append}
use cctop.Prelude.{
  ℕ, zero, suc, ◌+◌, ◌*◌, ◌^◌, ◌≡◌, ◌≢◌, refl, ap, String, Bool, false, some, List, [], ◌∷◌, arith,
  length, ltb, true,
}
use cctop.Prelude.Int.{pos, negsuc}
use cctop.Terminal.{Env, Double, lit, of_int}
use cctop.Console.{Console}
use cctop.Console.Session.{zeroed}
use cctop.Cpu.{Naming, Ticks}

-- Literals are compared, and natural numbers with literals; no other double is below another.
abbrev pub lit_lt : Double → Double → Bool
lit_lt (lit a m) (lit b n) = ltb (a * 10 ^ n) (b * 10 ^ m)
lit_lt (of_int (pos a)) (lit b n) = ltb (a * 10 ^ n) b
lit_lt _ _ = false

pub lit_lt_asym : (x y : Double) → lit_lt x y ≡ true → lit_lt y x ≡ false
lit_lt_asym (lit a m) (lit b n) e = ground (arith, e)
lit_lt_asym (of_int (pos a)) (lit b n) e = refl
lit_lt_asym (lit a m) _ e = cc
lit_lt_asym _ _ e = cc

-- A window of 100 by 50. The clock counts the calls.
instance abbrev pub sample_env : Env
sample_env = record {
  cols = λ t. 100;
  lines = λ t. 50;
  getcury = λ t. 12;
  find_pair = λ t fg bg. negsuc 0;
  new_pair = λ t fg bg. pos fg;
  get_char = λ t. some b'q';
  spare = 0;
  millis = λ t. length t;
  strlen = λ t. 20;
  lt = lit_lt;
  eq = λ x y. false;
  to_int = λ x. pos 5;
}

abbrev pub sample_console : Console
sample_console = record zeroed { width = 100; height = 50 }

abbrev strokes : ℕ → String
strokes zero = "0"
strokes (suc n) = "0" +++ strokes n

len-strokes : (n : ℕ) → len (strokes n) ≡ suc n
len-strokes zero = refl
len-strokes (suc n) = omega (arith, len-append "0" (strokes n), len-strokes n)

-- Not the names of the program, whose digits are shorter.
abbrev stroke_name : ℕ → String
stroke_name n = "CPU" +++ strokes n

len-stroke_name : (n : ℕ) → len (stroke_name n) ≡ n + 4
len-stroke_name n = omega (arith, len-append "CPU" (strokes n), len-strokes n)

pub stroke_name_inj : (i j : ℕ) → stroke_name i ≡ stroke_name j → i ≡ j
stroke_name_inj i j e = omega (arith, ap len e, len-stroke_name i, len-stroke_name j)

pub stroke_name-ne-cpu : (i : ℕ) → stroke_name i ≢ "CPU"
stroke_name-ne-cpu i e = omega (arith, ap len e, len-stroke_name i)

instance abbrev pub sample_names : Naming
sample_names = record {
  core_name = stroke_name;
  core_name_inj = stroke_name_inj;
  core_name-ne-cpu = stroke_name-ne-cpu;
}

abbrev pub ticks_then : List Ticks
ticks_then =
    record { user = 10; system = 20; idle = 300; nice = 0 }
    ∷ record { user = 11; system = 21; idle = 301; nice = 1 }
    ∷ []

abbrev pub ticks_now : List Ticks
ticks_now =
    record { user = 15; system = 22; idle = 330; nice = 0 }
    ∷ record { user = 19; system = 21; idle = 341; nice = 3 }
    ∷ []
