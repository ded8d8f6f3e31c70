-- ===== src/Console/Input.antt =====
-- lib/Console.cpp: raw mode and reading a key.
use cctop.Prelude.{
  ℕ, zero, suc, ◌+◌, ◌%◌, Bool, true, false, Option, none, some, ◌▷◌, ltb, ◌==◌, if◌then◌else◌,
}
use cctop.Terminal.{Env, cbreak, keypad, timeout, getch, gettimeofday}
use cctop.Terminal
use cctop.Console.{Console, call, resize}

unfoldable pub raw : Bool → Console → Console
raw on c = record (c ▷ call Terminal.raw ▷ call cbreak ▷ call keypad) { raw_input = on }

-- KEY_RESIZE of ncurses.h
abbrev pub key_resize : ℕ
key_resize = 410

-- `(unsigned char)(char)` of what `getch` returns, ERR being -1
unfoldable pub to_uchar : Option ℕ → ℕ
to_uchar none = 255
to_uchar (some k) = k % 256

-- What the `switch` of the loop makes of a poll: 0 and ERR are skipped, a new size is taken over.
pub data Poll : Type 0 where
  skip resized : Poll
  key : ℕ → Poll

unfoldable pub classify : Option ℕ → Poll
classify none = skip
classify (some k) = if k == 0 then skip else if k == key_resize then resized else key k

module _ ⦃env : Env⦄ where
  -- The rest of a round, where `again` is the loop.
  unfoldable pub finish {ℓ} : {R : Type ℓ} → (Console → R) → (Console → ℕ → R) → Poll → Console → R
  finish again done skip c = again c
  finish again done resized c = again (resize c)
  finish again done (key k) c = done c k

  -- The wait for a key up to the time `when`. `none` means that the fuel ran out; the inner option
  -- is the key, or `none` at the timeout.
  unfoldable pub read_loop : ℕ → ℕ → Console → Option (Console × Option ℕ)
  read_loop zero when c = none
  read_loop (suc fuel) when c =
      let polled = c ▷ call gettimeofday in
      elim (ltb (env.millis c.calls) when) [
        | false ↦ some (polled, none)
        | true ↦
            finish (read_loop fuel when) (λ d k. some (d, some k))
              (classify (env.get_char polled.calls)) (polled ▷ call getch)
      ]

  -- `read_character(c, true)`; `read_timeout` is the option of that name
  unfoldable pub read_character : (fuel read_timeout : ℕ) → Console → Option (Console × Option ℕ)
  read_character fuel read_timeout c =
      read_loop fuel (env.millis c.calls + read_timeout)
        (c ▷ call gettimeofday ▷ call (timeout 500))

  -- `read_character(c, false)`, which always returns true
  unfoldable pub read_blocking : Console → Console × ℕ
  read_blocking c =
      let started = c ▷ call gettimeofday in
      (started ▷ call getch, to_uchar (env.get_char started.calls))
