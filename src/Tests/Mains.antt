-- ===== src/Tests/Mains.antt =====
-- The program from its start to its end.
use std.Path.{subst}
use cctop.Main.Going.{NeverQuits, IsAnswered, rounds_go_on}
use cctop.Main.Program.{steps}
use cctop.Main.{going}
use cctop.Options.{quit}
use cctop.Prelude.{map, ◌≢◌, ℕ, length}
use cctop.Terminal.{Env, Trace, getch}
use cctop.Console.Waiting.{Waits, skips}
use cctop.Network.{messages}
use cctop.Tests.Drives.{sample_media, sample_registry, sample_messages}
use cctop.Tests.Counters.{pages}
use cctop.Main.Program.{program, program-Safe, Event, round, interrupt}
use cctop.Main.Startup.{Booted, boot-Booted}
use cctop.Main.Boot.{Boot, boot}
use cctop.Prelude.{◌≡◌, refl, [], arith, true, some, ◌∷◌, List}
use cctop.Console.{Console}
use cctop.Console.Frame.{ending}
use cctop.Console.Ending.{endwins}
use cctop.Options.{action}
use cctop.Loop.{World}
use cctop.Main.{left, turn}
use cctop.Main.Safety.{IsOpen, Safe}
use cctop.Main.Quitting.{Insists, turn_quits}
use cctop.Tests.Samples.{sample_env, sample_names, ticks_then, ticks_now}
use cctop.Tests.Terminals.{sample_clock}
use cctop.Tests.Processes.{sample_accounts}
use cctop.Main.Restored.{Clean}
use cctop.Main.Written.{program-Clean}
use cctop.Tests.Passes.{
  sample_answers, sample_world, small_world, sample_world-IsReady, sample_answers-IsTold,
}

sample_world-IsOpen : IsOpen sample_world
unfolding ending endwins
sample_world-IsOpen = record { ready = sample_world-IsReady; open_session = refl }

small_world-IsOpen : IsOpen small_world
unfolding ending endwins
small_world-IsOpen = record {
  ready = record {
    processor = sample_world-IsReady.processor;
    disk = sample_world-IsReady.disk;
    network = sample_world-IsReady.network;
    processes = sample_world-IsReady.processes;
  };
  open_session = refl;
}

insisting : Insists sample_env b'q' 1000
insisting = record { pressed = λ t. refl; prompt = λ t. omega arith }

turn_quits_example :
    (c : Console) × (turn sample_accounts sample_answers sample_world ≡ left 1 c)
    × (endwins c.calls ≡ 1)
unfolding action
turn_quits_example =
    turn_quits sample_accounts b'q' sample_answers sample_world insisting refl sample_answers-IsTold
      sample_world-IsOpen

abbrev sample_boot : Boot
sample_boot = record {
  log_opened = true;
  cpu_count = some 2;
  names = record {
    nodename = "host";
    sysname = "Darwin";
    release = "21.0";
    version = "21";
    machine = "x86_64";
  };
  first_ticks = ticks_then;
  second_ticks = ticks_now;
  page_size = 4096;
  first_pages = pages;
  second_pages = pages;
  found = some (sample_media ∷ []);
  removed = some [];
  registry = sample_registry;
  first_interfaces = messages sample_messages;
  second_interfaces = messages sample_messages;
}

boot-Booted_example : Booted (boot sample_boot)
boot-Booted_example = boot-Booted sample_boot 2 refl refl (omega arith) (omega arith)

abbrev sample_events : List Event
sample_events = round sample_answers ∷ round sample_answers ∷ interrupt ∷ []

program-Safe_example : Safe (program sample_accounts 501 sample_boot sample_answers sample_events)
program-Safe_example =
    program-Safe sample_accounts 501 2 sample_boot sample_answers sample_events sample_clock refl
      refl (omega arith) (omega arith) sample_answers-IsTold
      (sample_answers-IsTold, (sample_answers-IsTold, (tt, tt)))

program-Clean_example : Clean (program sample_accounts 501 sample_boot sample_answers sample_events)
program-Clean_example = program-Clean sample_accounts 501 sample_boot sample_answers sample_events

-- A terminal on which `h` is pressed all the time.
abbrev helped : Env
helped = record sample_env { get_char = λ t. some b'h' }

help_ne_quit : action b'h' ≢ quit
unfolding action
help_ne_quit e = cc

helped-NeverQuits : NeverQuits helped
helped-NeverQuits = record {
  other = λ t k e. subst (λ (c : ℕ). action c ≢ quit) (some_inj e) help_ne_quit;
}
  where
    some_inj : {a b : ℕ} → some a ≡ some b → a ≡ b
    some_inj e = cc

helped_clock : Waits helped
helped_clock = record {
  now = λ t. length t;
  off = 0;
  later = λ k t. omega arith;
  waited = λ t e. omega arith;
  near = λ t. (omega arith, omega arith);
  few = λ t. omega (arith, no_skips t);
}
  where
    no_skips : (t : Trace) → skips helped t ≡ 0
    no_skips [] = refl
    no_skips (getch ∷ t) = omega (arith, no_skips t)
    no_skips (_ ∷ t) = no_skips t

sample-IsAnswered : IsAnswered sample_answers
sample-IsAnswered = record {
  listed = sample_answers-IsTold;
  told = sample_messages;
  interfaces = refl;
}

rounds_go_on_example :
    (w : World) × (steps ⦃env = helped⦄ sample_accounts
        (map (λ a. round a) (sample_answers ∷ sample_answers ∷ []))
        sample_world
      ≡ going w)
    × IsOpen w
rounds_go_on_example =
    rounds_go_on ⦃env = helped⦄ sample_accounts (sample_answers ∷ sample_answers ∷ []) sample_world
      helped_clock helped-NeverQuits (sample-IsAnswered, (sample-IsAnswered, tt))
      sample_world-IsOpen
