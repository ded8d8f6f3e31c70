-- ===== src/Loop/Pass.antt =====
-- main.cpp: a pass in a window that is large enough.
use cctop.Console.Ending.{endwins}
use cctop.Loop.Quiet.{ending-resize_help}
use cctop.Prelude.{
  ℕ, ◌+◌, ◌≤◌, true, false, some, List, ◌≡◌, refl, ap, arith, ltb, ◌||◌, ◌<◌, ◌⊎◌, inl, inr, ◌∙◌,
  Option,
}
use cctop.Terminal.{Env}
use cctop.Console.{Console, printed}
use cctop.Console.Lines.{line_laws}
use cctop.Console.Session.{running, Outcome, exited}
use cctop.Cpu.{Naming}
use cctop.Network.{Message, messages}
use cctop.ProcessList.Users.{Accounts}
use cctop.Disk.Stats.{disk_stat}
use cctop.Network.Traffic.{interface_stat}
use cctop.Map.{string_key}
use cctop.Loop.Ready.{IsTold}
use cctop.Network.{Answer, failed}
use cctop.Console.Frame.{ending}
use cctop.Map.{nat_key}
use cctop.Loop.{World, Answers, loop, min_width, min_height, resize_help}
use cctop.Loop.Ready.{IsReady, Keeps, update_world_lem, update_world_failed}
use cctop.Loop.Sections.{uncounted, print_world_lem}

large : (w h : ℕ) → min_width ≤ w → min_height ≤ h → (ltb w min_width || ltb h min_height) ≡ false
large w h a b = ground arith

small :
    (w h : ℕ) → (w < min_width) ⊎ (h < min_height) → (ltb w min_width || ltb h min_height) ≡ true
small w h (inl a) = ground arith
small w h (inr a) = ground arith

pub window_cases :
    (w h : ℕ) → ((min_width ≤ w) × (min_height ≤ h)) ⊎ ((w < min_width) ⊎ (h < min_height))
window_cases w h = ground arith

printed-resize_help : (c : Console) → printed (resize_help c) ≡ printed c + 1
unfolding resize_help
printed-resize_help c = simp line_laws (omega arith)

module _ ⦃env : Env⦄ ⦃names : Naming⦄ (accounts : Accounts) where
  -- A pass in a window of at least 96 columns and 30 rows, from a state in which the cores, the
  -- drives, the interfaces and the processes can be updated, where sysctl tells the interfaces, libproc
  -- answers about a process with its number and the power source services describe the sources (IsTold),
  -- meets no null pointer, does not leave the program, and leaves such a state again. The number that it
  -- returns is that of the lines that it prints, less one for swap if the memory is not condensed.
  -- (The line of the battery that is not counted and the last one that is counted for no line make up
  -- for each other.)
  pub loop_lem :
      (a : Answers) (xs : List Message) (w : World)
      → IsReady w
      → IsTold a
      → a.interfaces ≡ messages xs
      → min_width ≤ w.console.width
      → min_height ≤ w.console.height
      → (w' : World) × (n : ℕ) × (loop accounts a w ≡ running (some (w', n)))
        × (printed w'.console ≡ printed w.console + n + uncounted w.options)
        × IsReady w'
        × Keeps w w'
  unfolding loop
  loop_lem a xs w r listed e wide high =
      let (w1, done1, ready, console, options) = update_world_lem accounts a xs w e listed r in
      let (w2, n, done2, lines, ready2, keeps) = print_world_lem accounts a w1 ready in
      (
        w2,
        n,
        rw (large w.console.width w.console.height wide high, done1) (ap (λ r. running r) done2),
        rw (console, options) at lines,
        ready2,
        record {
          quiet = keeps.quiet ∙ ap ending console;
          timeout = keeps.timeout ∙ ap (λ o. o.read_timeout) options;
        },
      )

  -- A pass in a smaller window prints one line, returns 0, and updates nothing.
  pub loop_small :
      (a : Answers) (w : World)
      → (w.console.width < min_width) ⊎ (w.console.height < min_height)
      → (w' : World) × (loop accounts a w ≡ running (some (w', 0)))
        × (printed w'.console ≡ printed w.console + 1)
        × (record w' { console = w.console } ≡ w)
  unfolding loop
  loop_small a w h = (
    record w { console = resize_help w.console },
    rw (small w.console.width w.console.height h) refl,
    printed-resize_help w.console,
    refl,
  )

  abbrev Continues : World → Outcome (Option (World × ℕ)) → Type 0
  Continues w r = (w' : World) × (n : ℕ) × (r ≡ running (some (w', n))) × IsReady w' × Keeps w w'

  abbrev Leaves : World → Outcome (Option (World × ℕ)) → Type 0
  Leaves w r =
      (c : Console) × (r ≡ exited 1 c)
      × (w.console.aborting ≡ false → endwins c.calls ≡ endwins w.console.calls + 1)

  loop_large :
      (a : Answers) (w : World)
      → IsReady w
      → IsTold a
      → min_width ≤ w.console.width
      → min_height ≤ w.console.height
      → (answer : Answer) → a.interfaces ≡ answer
      → Continues w (loop accounts a w) ⊎ Leaves w (loop accounts a w)
  unfolding loop
  loop_large a w r listed wide high (messages xs) e =
      let (w', n, done, _, ready, keeps) = loop_lem a xs w r listed e wide high in
      inl (w', n, done, ready, keeps)
  loop_large a w r listed wide high (failed error) e =
      let (c, done, once) = update_world_failed accounts a error w e listed r in
      inr (c, rw (large w.console.width w.console.height wide high, done) refl, once)

  -- Whatever the window and the answers are, a pass from a state that can be updated meets no null
  -- pointer: it leaves such a state again, or the program with status 1 and one `endwin` more.
  pub loop_total :
      (a : Answers) (w : World)
      → IsReady w
      → IsTold a
      → Continues w (loop accounts a w) ⊎ Leaves w (loop accounts a w)
  unfolding loop
  loop_total a w r listed = elim (window_cases w.console.width w.console.height) [
    | inl (wide, high) ↦ loop_large a w r listed wide high a.interfaces refl
    | inr tight ↦ inl (
      record w { console = resize_help w.console },
      0,
      rw (small w.console.width w.console.height tight) refl,
      record {
        processor = r.processor;
        disk = r.disk;
        network = r.network;
        processes = r.processes;
      },
      record { quiet = ending-resize_help w.console; timeout = refl },
    )
  ]
