-- ===== src/Options/Keys.antt =====
-- lib/Options.cpp: what the keys do.
use mathlib.Core.Logic.{◌≢◌}
use cctop.Prelude.{ℕ, ◌≡◌, refl, ◌⊎◌, inl, inr, false, [], arith}
use cctop.Console.{Console, clear}
use cctop.Console.Session.{Outcome, running, exited}
use cctop.Console.Ending.{LeavesOnce, abort-LeavesOnce}
use cctop.Options.{
  Options, Action, quit, redraw, cpu, memory, virtual_memory, disk, network, processes, main, help,
  ignored, action, perform, process,
}

-- The options after a key, the old ones if the program has left.
unfoldable pub options_after : ℕ → Options → Console → Options
options_after c o con = elim (process c o con) [ running r ↦ r.0 | exited _ _ ↦ o ]

-- A key that does something, other than leaving and the help, pressed twice gives the options
-- back, with the help window closed. (Each press is handled on whatever console there is then.)
pub toggle_twice :
    (c : ℕ) (o : Options) (con con' : Console)
    → action c ≢ quit
    → action c ≢ help
    → action c ≢ ignored
    → options_after c (options_after c o con) con' ≡ record o { show_help = false }
unfolding options_after process perform
toggle_twice c o con con' nq nh ni = ground arith

-- `?` and `h` pressed twice give all the options back.
help_twice :
    (c : ℕ) (o : Options) (con con' : Console)
    → action c ≡ help
    → options_after c (options_after c o con) con' ≡ o
unfolding options_after process perform
help_twice c o con con' h = ground arith

action-eq-quit : (c : ℕ) → (c ≡ 3) ⊎ ((c ≡ b'q') ⊎ (c ≡ b'Q')) → action c ≡ quit
unfolding action
action-eq-quit c (inl e) = rw e
action-eq-quit c (inr (inl e)) = rw e
action-eq-quit c (inr (inr e)) = rw e

-- Unless the console has been cleaned up before, ^C, `q` and `Q` leave with status 1, and end
-- curses mode once.
quit_leaves :
    (c : ℕ) (o : Options) (con : Console)
    → (c ≡ 3) ⊎ ((c ≡ b'q') ⊎ (c ≡ b'Q'))
    → con.aborting ≡ false
    → LeavesOnce 1 con (process c o con)
unfolding process perform
quit_leaves c o con k h =
    rw (action-eq-quit c k) (abort-LeavesOnce (Options × Console) con "QUIT\n" [] h)

-- What a key that does not leave the program comes to: nothing, or a change with the screen cleared
-- last.
abbrev Stays : Options → Console → Outcome (Options × Console) → Type 0
Stays o con r =
    (r ≡ running (o, con)) ⊎ ((o' : Options) × (d : Console) × (r ≡ running (o', clear d)))

perform-Stays :
    (a : Action) (o : Options) (con : Console) → a ≢ quit → Stays o con (perform a o con)
unfolding perform
perform-Stays quit o con h = absurd (h refl)
perform-Stays ignored o con h = inl refl
perform-Stays redraw o con h = inr (_, _, refl)
perform-Stays cpu o con h = inr (_, _, refl)
perform-Stays memory o con h = inr (_, _, refl)
perform-Stays virtual_memory o con h = inr (_, _, refl)
perform-Stays disk o con h = inr (_, _, refl)
perform-Stays network o con h = inr (_, _, refl)
perform-Stays processes o con h = inr (_, _, refl)
perform-Stays main o con h = inr (_, _, refl)
perform-Stays help o con h = inr (_, _, refl)

-- No other key leaves the program: it changes nothing at all, or it has the screen cleared as the
-- last thing.
other_keys_stay :
    (c : ℕ) (o : Options) (con : Console)
    → action c ≢ quit
    → (process c o con ≡ running (o, con))
      ⊎ ((o' : Options) × (d : Console) × (process c o con ≡ running (o', clear d)))
unfolding process
other_keys_stay c o con h = perform-Stays (action c) o con h
