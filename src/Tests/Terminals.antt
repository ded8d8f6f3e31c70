-- ===== src/Tests/Terminals.antt =====
-- The console and the keys.
use cctop.Console.Pairs.{allocated_pairs, alloc_color_pair}
use cctop.Console.Allocated.{Allocated, alloc_color_pair-Allocated}
use cctop.Debug.{Debug, logged, open_log, close_log, gauge_text}
use cctop.Debug.Written
use cctop.Debug.Written.{log_all, unflushed, closes, log_session}
use cctop.Options.Presses.{AllStay, of_memory, press_all, press_all_lem}
use cctop.Console.{text}
use cctop.Prelude.{List, ◌∷◌, true, length}
use cctop.Prelude.{ℕ, ◌+◌, ◌≡◌, refl, Option, some, [], arith}
use cctop.Terminal.{Text, Trace, lit, getch}
use cctop.Console.{Console}
use cctop.Console.Input.{read_character}
use cctop.Console.Waiting.{Waits, skips, Answers, read_character_total}
use cctop.Console.Session.{running}
use cctop.Options.{Options, defaults, action}
use cctop.Tests.Samples.{sample_env, sample_console}

pub sample_clock : Waits sample_env
sample_clock = record {
  now = λ t. length t;
  off = 0;
  later = λ k t. omega arith;
  waited = λ t e. omega arith;
  near = λ t. (omega arith, omega arith);
  few = λ t. omega (arith, no_skips t);
}
  where
    no_skips : (t : Trace) → skips sample_env t ≡ 0
    no_skips [] = refl
    no_skips (getch ∷ t) = omega (arith, no_skips t)
    no_skips (_ ∷ t) = no_skips t

read_character_total_example :
    (a : Console × Option ℕ) × (read_character 1001 1000 sample_console ≡ some a)
    × Answers sample_env (sample_env.millis sample_console.calls + 1000) a
read_character_total_example =
    read_character_total sample_clock 1001 1000 sample_console (omega arith)

no_quit : AllStay (b'm' ∷ b'c' ∷ b'M' ∷ b'c' ∷ b'm' ∷ [])
unfolding action
no_quit = (λ e. cc, (λ e. cc, (λ e. cc, (λ e. cc, (λ e. cc, tt)))))

press_all_lem_example :
    (o : Options) × (d : Console) × (press_all
        (b'm' ∷ b'c' ∷ b'M' ∷ b'c' ∷ b'm' ∷ [])
        defaults
        sample_console
      ≡ running (o, d))
    × (o.condense_memory ≡ true)
    × (o.read_timeout ≡ 1000)
press_all_lem_example =
    press_all_lem of_memory (b'm' ∷ b'c' ∷ b'M' ∷ b'c' ∷ b'm' ∷ []) defaults sample_console no_quit

abbrev sample_log : List Text
sample_log = gauge_text 20 (lit 25 0) ∷ text "read_character\n" [] ∷ []

log_session_example :
    (d d' e : Debug) × (open_log true ≡ logged d)
    × (log_all sample_log d ≡ logged d')
    × (Written.texts d'.calls ≡ text "\nBegin DEBUG log:\n" [] ∷ sample_log)
    × (unflushed d'.calls ≡ 0)
    × (close_log d' ≡ logged e)
    × (closes e.calls ≡ 1)
log_session_example = log_session sample_log (omega arith, (omega arith, tt))

alloc_color_pair-Allocated_example :
    Allocated 1 0 allocated_pairs (alloc_color_pair (λ i fg bg. true) 1 0 allocated_pairs)
alloc_color_pair-Allocated_example =
    alloc_color_pair-Allocated (λ i fg bg. true) 1 0 allocated_pairs (omega arith)
