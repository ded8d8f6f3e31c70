-- ===== src/Network/Rows.antt =====
-- macos/Network.cpp: `Network::print`.
use cctop.Prelude.{
  ℕ, ◌+◌, String, Bool, some, [], ◌∷◌, ◌≡◌, refl, arith, Bool-cases, inl, inr, if◌then◌else◌, ltb,
  ◌∙◌,
}
use cctop.Terminal.{Env}
use cctop.Map.{Map, string_key, lookup}
use cctop.Options.{Options}
use cctop.Console.{Console, printed}
use cctop.Console.Frame.{ending, ending-println, ending-inverseln, ending-end_section}
use cctop.Console.Lines.{printed-println, printed-inverseln, end_section_lem}
use cctop.Console.Output.{end_section}
use cctop.Sampler.{Named}
use cctop.Sampler.Diff.{Within, Within-tail}
use cctop.Sampler.Interval
use cctop.Network.{
  Network, is_hidden, print_interface, print_found, print_one, print_all, header, print_network,
}
use cctop.Network.Traffic.{Interface, interface_stat}

-- The count stands as far above its start as lines have been completed, and the session of the
-- console is left alone.
abbrev pub Counted : Console × ℕ → Console × ℕ → Type 0
Counted a b = (printed b.0 + a.1 ≡ printed a.0 + b.1) × (ending b.0 ≡ ending a.0)

printed-print_interface :
    (i c : Interface) (con : Console) → printed (print_interface i c con) ≡ printed con + 1
unfolding print_interface
printed-print_interface i c con = elim (Bool-cases (ltb con.width 98)) [
  | inl narrow ↦ rw narrow (omega (arith, printed-println con _ _))
  | inr wide ↦ rw wide (omega (arith, printed-println con _ _))
]

ending-print_interface :
    (i c : Interface) (con : Console) → ending (print_interface i c con) ≡ ending con
unfolding print_interface
ending-print_interface i c con = elim (Bool-cases (ltb con.width 98)) [
  | inl narrow ↦ rw narrow (ending-println con _ _)
  | inr wide ↦ rw wide (ending-println con _ _)
]

print_found-Counted : (i c : Interface) (out : Console × ℕ) → Counted out (print_found i c out)
unfolding print_found
print_found-Counted i c (con, count) =
    ground (arith, printed-print_interface i c con, ending-print_interface i c con)

print_one_lem :
    (current : Map String Interface) (i : Interface) (out : Console × ℕ) (c : Interface)
    → lookup i.name current ≡ some c
    → (out' : Console × ℕ) × (print_one current i out ≡ some out') × Counted out out'
unfolding print_one
print_one_lem current i out c e = elim (Bool-cases (is_hidden i.name)) [
  | inl hidden ↦ (out, rw hidden refl, (refl, refl))
  | inr shown ↦ (print_found i c out, rw (shown, e) refl, print_found-Counted i c out)
]

-- Every object of the list is in the other map.
abbrev pub AllIn : Map String Interface → Map String Interface → Type 0
AllIn current [] = Unit
AllIn current ((_, i) ∷ m) = (c : Interface) × (lookup i.name current ≡ some c) × AllIn current m

print_all_lem :
    (current delta : Map String Interface) (out : Console × ℕ)
    → AllIn current delta
    → (out' : Console × ℕ) × (print_all current delta out ≡ some out') × Counted out out'
unfolding print_all
print_all_lem current [] out h = (out, refl, (refl, refl))
print_all_lem current ((_, i) ∷ delta) out (c, e, h) =
    let (out1, one, counted1) = print_one_lem current i out c e in
    let (out2, rest, counted2) = print_all_lem current delta out1 h in
    (
      out2,
      rw (one, print_all) rest,
      (omega (arith, counted1.0, counted2.0), counted2.1 ∙ counted1.1),
    )

pub AllIn-Within :
    (current delta : Map String Interface)
    → Named delta
    → Within delta current
    → AllIn current delta
unfolding lookup
AllIn-Within current [] n w = tt
AllIn-Within current ((k, i) ∷ delta) (e, n) w =
    let (c, found) = w k i (rw ((string_key.eq_iff k k).1 refl) refl) in
    (c, rw e found, AllIn-Within current delta n (Within-tail k i delta current w))

module _ ⦃env : Env⦄ where
  printed-header : (con : Console) → printed (header con) ≡ printed con + 1
  unfolding header
  printed-header con = elim (Bool-cases (ltb con.width 98)) [
    | inl narrow ↦ rw narrow (omega (arith, printed-inverseln _ _ con))
    | inr wide ↦ rw wide (omega (arith, printed-inverseln _ _ con))
  ]

  ending-header : (con : Console) → ending (header con) ≡ ending con
  unfolding header
  ending-header con = elim (Bool-cases (ltb con.width 98)) [
    | inl narrow ↦ rw narrow (ending-inverseln _ _ con)
    | inr wide ↦ rw wide (ending-inverseln _ _ con)
  ]

  rows_lem :
      (o : Options) (net : Network) (con : Console)
      → Interval.IsValid net
      → (out : Console × ℕ) × ((if o.condense_network
            then some (header con, 1)
            else print_all net.current net.delta (header con, 1))
          ≡ some out)
        × Counted (header con, 1) out
  rows_lem o net con h = elim (Bool-cases o.condense_network) [
    | inl short ↦ ((header con, 1), rw short refl, (refl, refl))
    | inr long ↦ rw long (
        print_all_lem net.current net.delta (header con, 1)
          (AllIn-Within net.current net.delta h.delta_named h.delta_within))
  ]

  -- `print` in full: besides the lines, that the session of the console is left alone.
  pub print_network_all :
      (blank : Bool) (o : Options) (net : Network) (con : Console)
      → Interval.IsValid net
      → (d : Console) × (n : ℕ) × (print_network blank o net con ≡ some (d, n))
        × (printed d ≡ printed con + n)
        × (ending d ≡ ending con)
  unfolding print_network
  print_network_all blank o net con h =
      let ((c, n), done, counted) = rows_lem o net con h in
      let (_, lines) = end_section_lem blank c n in
      (
        (end_section blank (c, n)).0,
        (end_section blank (c, n)).1,
        rw (done, print_network) refl,
        omega (arith, lines, counted.0, printed-header con),
        ending-end_section blank c n ∙ counted.1 ∙ ending-header con,
      )

  -- In a valid state the display meets no missing interface, and returns the number of the lines
  -- that it prints.
  print_network_lem :
      (blank : Bool) (o : Options) (net : Network) (con : Console)
      → Interval.IsValid net
      → (d : Console) × (n : ℕ) × (print_network blank o net con ≡ some (d, n))
        × (printed d ≡ printed con + n)
  print_network_lem blank o net con h =
      let (d, n, done, lines, _) = print_network_all blank o net con h in (d, n, done, lines)
