-- ===== src/Debug/Written.antt =====
-- common/Debug.cpp: what stands in the log file.
use cctop.Prelude.{ℕ, suc, ◌<◌, true, false, leb, List, [], ◌∷◌, ◌++◌, ◌≡◌, refl, ◌∙◌, ap, arith}
use mathlib.Core.List.{append_assoc, append-nil}
use std.Path.{sym}
use cctop.Terminal.{Text, Env}
use cctop.Console.{text}
use cctop.Debug.{
  Debug, FileCall, fopen, chmod, fflush, fclose, fprintf, fwprintf, Logged, logged, null_stream,
  overrun, buffer_size, open_log, close_log, log,
}

-- The texts that calls were given, in their order.
abbrev pub texts : List FileCall → List Text
texts [] = []
texts (fprintf t ∷ cs) = texts cs ++ t ∷ []
texts (fwprintf t ∷ cs) = texts cs ++ t ∷ []
texts (_ ∷ cs) = texts cs

-- How many of them stand in the buffer of the stream, not in the file.
abbrev pub unflushed : List FileCall → ℕ
unflushed [] = 0
unflushed (fflush ∷ cs) = 0
unflushed (fclose ∷ cs) = 0
unflushed (fprintf t ∷ cs) = suc (unflushed cs)
unflushed (fwprintf t ∷ cs) = suc (unflushed cs)
unflushed (_ ∷ cs) = unflushed cs

abbrev pub closes : List FileCall → ℕ
closes [] = 0
closes (fclose ∷ cs) = suc (closes cs)
closes (_ ∷ cs) = closes cs

module _ ⦃env : Env⦄ where
  unfoldable pub log_all : List Text → Debug → Logged
  log_all [] d = logged d
  log_all (t ∷ ts) d = elim (log t d) [
    | logged d' ↦ log_all ts d'
    | null_stream ↦ null_stream
    | overrun ↦ overrun
  ]

  -- `log` has room for the text and its zero byte.
  abbrev pub AllFit : List Text → Type 0
  AllFit [] = Unit
  AllFit (t ∷ ts) = (env.strlen t < buffer_size) × AllFit ts

  -- A log that is open, with all of these texts in the file.
  pub record Holds (ts : List Text) (d : Debug) : Type 0 where
    pub is_open : d.logfile ≡ true
    pub written : texts d.calls ≡ ts
    pub flushed : unflushed d.calls ≡ 0
    pub not_closed : closes d.calls ≡ 0

  room : (n : ℕ) → n < buffer_size → leb (suc n) buffer_size ≡ true
  room n h = ground arith

  log_one_lem :
      (t : Text) (ts : List Text) (d : Debug)
      → env.strlen t < buffer_size
      → Holds ts d
      → (d' : Debug) × (log t d ≡ logged d') × Holds (ts ++ t ∷ []) d'
  unfolding log
  log_one_lem t ts d fits h = (
    record d { calls = fflush ∷ fprintf t ∷ d.calls },
    rw (log, room (env.strlen t) fits) (rw (h.is_open) refl),
    record {
      is_open = h.is_open;
      written = ap (λ us. us ++ t ∷ []) h.written;
      flushed = refl;
      not_closed = h.not_closed;
    },
  )

  log_all_lem :
      (ms ts : List Text) (d : Debug)
      → AllFit ms
      → Holds ts d
      → (d' : Debug) × (log_all ms d ≡ logged d') × Holds (ts ++ ms) d'
  unfolding log_all
  log_all_lem [] ts d fit h = (
    d,
    refl,
    record {
      is_open = h.is_open;
      written = h.written ∙ sym (append-nil ts);
      flushed = h.flushed;
      not_closed = h.not_closed;
    },
  )
  log_all_lem (t ∷ ms) ts d (fits, rest) h =
      let (d1, done1, h1) = log_one_lem t ts d fits h in
      let (d2, done2, h2) = log_all_lem ms (ts ++ t ∷ []) d1 rest h1 in
      (
        d2,
        rw (log_all, done1) done2,
        record {
          is_open = h2.is_open;
          written = h2.written ∙ append_assoc ts (t ∷ []) ms;
          flushed = h2.flushed;
          not_closed = h2.not_closed;
        },
      )

  -- A log that could be opened, and on which `log` is called any number of times, each time for a text
  -- of at most 1023 bytes: nothing is written past the buffer, `fprintf` gets the line at the beginning
  -- and the texts, all of them and in their order, with an `fflush` after the last, and the destructor
  -- closes the file once.
  pub log_session :
      (ms : List Text)
      → AllFit ms
      → (d d' e : Debug) × (open_log true ≡ logged d)
        × (log_all ms d ≡ logged d')
        × (texts d'.calls ≡ text "\nBegin DEBUG log:\n" [] ∷ ms)
        × (unflushed d'.calls ≡ 0)
        × (close_log d' ≡ logged e)
        × (closes e.calls ≡ 1)
  unfolding open_log close_log
  log_session ms fit =
      let begun : Debug = record {
        logfile = true;
        calls = fflush ∷ fprintf (text "\nBegin DEBUG log:\n" []) ∷ chmod ∷ fopen ∷ [];
      } in
      let (d, done, h) =
        log_all_lem ms (text "\nBegin DEBUG log:\n" [] ∷ []) begun fit
          (record { is_open = refl; written = refl; flushed = refl; not_closed = refl }) in
      (
        begun,
        d,
        record { logfile = false; calls = fclose ∷ d.calls },
        refl,
        done,
        h.written,
        h.flushed,
        rw (close_log, h.is_open) refl,
        ap suc h.not_closed,
      )
