-- ===== src/Options/Presses.antt =====
-- lib/Options.cpp: any number of keys, one after the other.
use mathlib.Core.Logic.{◌≢◌}
use cctop.Prelude.{
  ℕ, false, true, ◌+◌, suc, Bool, not, ◌⊎◌, Bool-cases, List, [], ◌∷◌, ◌≡◌, refl, ◌∙◌, arith,
  if◌then◌else◌, ◌==◌, ◌||◌, ◌%◌, inl, inr,
}
use cctop.Console.{Console}
use cctop.Console.Session.{Outcome, running, exited, abort, leave}
use cctop.Options.{
  Options, Action, quit, redraw, cpu, memory, virtual_memory, disk, network, processes, main, help,
  ignored, action, perform, process,
}

-- The keys that the loop of `main` hands over, as long as the program goes on.
unfoldable pub press_all : List ℕ → Options → Console → Outcome (Options × Console)
press_all [] o con = running (o, con)
press_all (k ∷ ks) o con = elim (process k o con) [
  | running (o', con') ↦ press_all ks o' con'
  | exited s d ↦ exited s d
]

-- The options that a key turns.
pub data Flag : Type 0 where
  of_cpu of_memory of_virtual_memory of_disk of_network of_processes of_main : Flag

abbrev pub get : Flag → Options → Bool
get of_cpu o = o.condense_cpu_state
get of_memory o = o.condense_memory
get of_virtual_memory o = o.condense_virtual_memory
get of_disk o = o.condense_disk
get of_network o = o.condense_network
get of_processes o = o.condense_processes
get of_main o = o.condense_main

-- The letter that the help window names for it.
abbrev pub upper : Flag → ℕ
upper of_cpu = b'C'
upper of_memory = b'M'
upper of_virtual_memory = b'V'
upper of_disk = b'D'
upper of_network = b'N'
upper of_processes = b'P'
upper of_main = b'X'

abbrev is_key : Flag → ℕ → Bool
is_key flag k = k == upper flag + 32 || k == upper flag

-- How many of the keys are this letter, small or large.
abbrev pub presses : Flag → List ℕ → ℕ
presses flag [] = 0
presses flag (k ∷ ks) = let rest = presses flag ks in if is_key flag k then suc rest else rest

-- An option after this many turns.
abbrev pub turned : ℕ → Bool → Bool
turned n on = if n % 2 == 1 then not on else on

turned-suc : (n : ℕ) (on : Bool) → turned n (not on) ≡ turned (suc n) on
turned-suc n on = ground arith

abbrev toggles : Flag → Action
toggles of_cpu = cpu
toggles of_memory = memory
toggles of_virtual_memory = virtual_memory
toggles of_disk = disk
toggles of_network = network
toggles of_processes = processes
toggles of_main = main

-- `action`, from the outcomes of its tests.
abbrev picked : (quits redraws : Bool) → (Flag → Bool) → Bool → Action
picked quits redraws test helps =
    if quits
    then quit
    else if redraws
    then redraw
    else if test of_cpu
    then cpu
    else if test of_memory
    then memory
    else if test of_virtual_memory
    then virtual_memory
    else if test of_disk
    then disk
    else if test of_network
    then network
    else if test of_processes
    then processes
    else if test of_main
    then main
    else if helps
    then help
    else ignored

picked-toggles :
    (flag : Flag) (quits redraws : Bool) (test : Flag → Bool) (helps : Bool)
    → test flag ≡ false
    → picked quits redraws test helps ≢ toggles flag
picked-toggles of_cpu quits redraws test helps e = ground (arith, e)
picked-toggles of_memory quits redraws test helps e = ground (arith, e)
picked-toggles of_virtual_memory quits redraws test helps e = ground (arith, e)
picked-toggles of_disk quits redraws test helps e = ground (arith, e)
picked-toggles of_network quits redraws test helps e = ground (arith, e)
picked-toggles of_processes quits redraws test helps e = ground (arith, e)
picked-toggles of_main quits redraws test helps e = ground (arith, e)

-- No key but the letter of an option turns it.
other_key : (flag : Flag) (k : ℕ) → is_key flag k ≡ false → action k ≢ toggles flag
unfolding action
other_key flag k e = picked-toggles flag _ _ (λ f. is_key f k) _ e

key_cases : (k a b : ℕ) → (k == a || k == b) ≡ true → (k ≡ a) ⊎ (k ≡ b)
key_cases k a b e = ground (arith, e)

letter_toggles :
    (flag : Flag) (k : ℕ) → (k ≡ upper flag + 32) ⊎ (k ≡ upper flag) → action k ≡ toggles flag
unfolding action
letter_toggles of_cpu k (inl e) = rw e refl
letter_toggles of_cpu k (inr e) = rw e refl
letter_toggles of_memory k (inl e) = rw e refl
letter_toggles of_memory k (inr e) = rw e refl
letter_toggles of_virtual_memory k (inl e) = rw e refl
letter_toggles of_virtual_memory k (inr e) = rw e refl
letter_toggles of_disk k (inl e) = rw e refl
letter_toggles of_disk k (inr e) = rw e refl
letter_toggles of_network k (inl e) = rw e refl
letter_toggles of_network k (inr e) = rw e refl
letter_toggles of_processes k (inl e) = rw e refl
letter_toggles of_processes k (inr e) = rw e refl
letter_toggles of_main k (inl e) = rw e refl
letter_toggles of_main k (inr e) = rw e refl

-- What a key does to the options.
abbrev after : Action → Options → Console → Options
after a o con = elim (perform a o con) [ running r ↦ r.0 | exited _ _ ↦ o ]

get-toggles :
    (flag : Flag) (o : Options) (con : Console)
    → get flag (after (toggles flag) o con) ≡ not (get flag o)
unfolding perform
get-toggles of_cpu o con = refl
get-toggles of_memory o con = refl
get-toggles of_virtual_memory o con = refl
get-toggles of_disk o con = refl
get-toggles of_network o con = refl
get-toggles of_processes o con = refl
get-toggles of_main o con = refl

get-after :
    (flag : Flag) (a : Action) (o : Options) (con : Console)
    → a ≢ toggles flag
    → get flag (after a o con) ≡ get flag o
unfolding perform abort leave
get-after of_cpu a o con h = ground arith
get-after of_memory a o con h = ground arith
get-after of_virtual_memory a o con h = ground arith
get-after of_disk a o con h = ground arith
get-after of_network a o con h = ground arith
get-after of_processes a o con h = ground arith
get-after of_main a o con h = ground arith

timeout-after :
    (a : Action) (o : Options) (con : Console) → (after a o con).read_timeout ≡ o.read_timeout
unfolding perform abort leave
timeout-after a o con = ground arith

-- None of the keys leaves the program.
abbrev pub AllStay : List ℕ → Type 0
AllStay [] = Unit
AllStay (k ∷ ks) = (action k ≢ quit) × AllStay ks

performs :
    (a : Action) (o : Options) (con : Console)
    → a ≢ quit
    → (d : Console) × (perform a o con ≡ running (after a o con, d))
unfolding perform
performs quit o con h = absurd (h refl)
performs redraw o con h = (_, refl)
performs cpu o con h = (_, refl)
performs memory o con h = (_, refl)
performs virtual_memory o con h = (_, refl)
performs disk o con h = (_, refl)
performs network o con h = (_, refl)
performs processes o con h = (_, refl)
performs main o con h = (_, refl)
performs help o con h = (_, refl)
performs ignored o con h = (_, refl)

get-key :
    (flag : Flag) (k : ℕ) (o : Options) (con : Console)
    → get flag (after (action k) o con) ≡ (if is_key flag k then not (get flag o) else get flag o)
get-key flag k o con = elim (Bool-cases (is_key flag k)) [
  | inl letter ↦
      let turns = letter_toggles flag k (key_cases k _ _ letter) in
      rw (turns, letter) (get-toggles flag o con)
  | inr other ↦ rw other (get-after flag (action k) o con (other_key flag k other))
]

turns_once :
    (flag : Flag) (k : ℕ) (ks : List ℕ) (o : Options) (con : Console)
    → turned (presses flag ks) (get flag (after (action k) o con))
      ≡ turned (presses flag (k ∷ ks)) (get flag o)
turns_once flag k ks o con = elim (Bool-cases (is_key flag k)) [
  | inl letter ↦ rw (get-key flag k o con) (rw letter (turned-suc (presses flag ks) (get flag o)))
  | inr other ↦ rw (get-key flag k o con) (rw other refl)
]

-- The options after some keys, none of which leaves the program: each option is turned once for every
-- time that its letter is among the keys, small or large, so it has changed if and only if that number
-- is odd. The time to wait is as it was.
pub press_all_lem :
    (flag : Flag) (ks : List ℕ) (o : Options) (con : Console)
    → AllStay ks
    → (o' : Options) × (d : Console) × (press_all ks o con ≡ running (o', d))
      × (get flag o' ≡ turned (presses flag ks) (get flag o))
      × (o'.read_timeout ≡ o.read_timeout)
unfolding press_all process
press_all_lem flag [] o con h = (o, con, refl, refl, refl)
press_all_lem flag (k ∷ ks) o con (stays, h) =
    let (c, done) = performs (action k) o con stays in
    let (o', d, rest, turns, kept) = press_all_lem flag ks (after (action k) o con) c h in
    (
      o',
      d,
      rw (done, press_all, process) rest,
      turns ∙ turns_once flag k ks o con,
      kept ∙ timeout-after (action k) o con,
    )
