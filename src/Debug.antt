-- ===== src/Debug.antt =====
-- common/Debug.h and common/Debug.cpp: the log file, with VERBOSE defined, as cctop.h does.
pub mod Written
use cctop.Prelude.{ℕ, suc, Bool, true, false, List, [], ◌∷◌, leb, if◌then◌else◌}
use cctop.Prelude.Int.{ℤ}
use cctop.Terminal.{Arg, Text, Double, Env, real, int}
use cctop.Console.{text}
use cctop.Console.Gauge.{to_fill}

-- The calls for the file, `fprintf` and `fwprintf` with the text that they are given. (Whether a stream
-- that has had an `fprintf` takes an `fwprintf` is up to the library.)
pub data FileCall : Type 0 where
  fopen chmod fflush fclose : FileCall
  fprintf fwprintf : Text → FileCall

-- `logfile` is whether the pointer is not null; the most recent call stands first.
pub record Debug : Type 0 where
  pub logfile : Bool
  pub calls : List FileCall

-- How a method ends: it returns, it gives the C library a null pointer for a stream, or it writes past
-- the end of the buffer on the stack.
pub data Logged : Type 0 where
  logged : Debug → Logged
  null_stream overrun : Logged

-- The size of `buffer`.
abbrev pub buffer_size : ℕ
buffer_size = 1024

-- The constructor; `opened` is whether `fopen` answers a file.
unfoldable pub open_log : Bool → Logged
open_log opened =
    if opened
    then logged (record {
      logfile = true;
      calls = fflush ∷ fprintf (text "\nBegin DEBUG log:\n" []) ∷ chmod ∷ fopen ∷ [];
    })
    else null_stream

-- The destructor.
unfoldable pub close_log : Debug → Logged
close_log d =
    if d.logfile then logged (record { logfile = false; calls = fclose ∷ d.calls }) else null_stream

-- `printw`. The argument `vswprintf` is what that function leaves in a buffer of so many characters of
-- a text, which it is told not to exceed.
unfoldable pub log_wide : (ℕ → Text → Text) → Text → Debug → Logged
log_wide vswprintf t d =
    let buffer = vswprintf buffer_size t in
    logged (if d.logfile then record d { calls = fflush ∷ fwprintf buffer ∷ d.calls } else d)

module _ ⦃env : Env⦄ where
  -- `log`. `vsprintf` writes the text and a zero byte to the buffer.
  unfoldable pub log : Text → Debug → Logged
  log t d =
      if leb (suc (env.strlen t)) buffer_size
      then logged (if d.logfile then record d { calls = fflush ∷ fprintf t ∷ d.calls } else d)
      else overrun

  -- What `Console::gauge` logs.
  unfoldable pub gauge_text : ℕ → Double → Text
  gauge_text width pct = text "pct: %.2f toFill %d\n" (real pct ∷ int (to_fill width pct) ∷ [])
