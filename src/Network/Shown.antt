-- ===== src/Network/Shown.antt =====
-- macos/Network.cpp: which interfaces `print` shows.
use cctop.Prelude.{
  ℕ, ◌+◌, ◌%◌, ◌==◌, not, ◌&&◌, ltb, true, false, String, Bool, none, some, List, [], ◌∷◌, ◌≡◌,
  refl, ap, ◌∙◌, arith, length, if◌then◌else◌, Bool-cases, inl, inr,
}
use package.text.Mathlib.Text.{starts_with}
use cctop.Terminal.{Env}
use cctop.Options.{Options}
use cctop.Console.{Console}
use cctop.Console.Output.{end_section}
use cctop.Map.{Map, string_key, lookup}
use cctop.Sampler.Interval
use cctop.Network.{
  Network, is_hidden, is_active, print_interface, print_found, print_one, print_all, header,
  print_network,
}
use cctop.Network.Traffic.{Interface, interface_stat}
use cctop.Network.Rows.{AllIn, AllIn-Within}

-- An interface is shown whose name begins with none of three words, whose flags have the lowest bit
-- (IFF_UP), which they have from the making of its entry, and which has received a packet.
abbrev pub is_shown : Interface → Interface → Bool
is_shown i c =
    not (starts_with i.name "utun")
    && not (starts_with i.name "awdl")
    && not (starts_with i.name "lo")
    && i.flags % 2 == 1
    && ltb 0 c.packets_in

is_shown_hidden : (i c : Interface) → is_hidden i.name ≡ true → is_shown i c ≡ false
unfolding is_hidden
is_shown_hidden i c h = ground (arith, h)

is_shown_active : (i c : Interface) → is_hidden i.name ≡ false → is_shown i c ≡ is_active i c
unfolding is_hidden is_active
is_shown_active i c h = ground (arith, h)

-- The entries of a difference that are shown, with their counters.
unfoldable pub shown_in : (current delta : Map String Interface) → List (Interface × Interface)
shown_in current [] = []
shown_in current ((_, i) ∷ delta) =
    let rest = shown_in current delta in
    elim (lookup i.name current) [
      | none ↦ rest
      | some c ↦ if is_shown i c then (i, c) ∷ rest else rest
    ]

-- Their lines, one after the other.
unfoldable pub each : List (Interface × Interface) → Console → Console
each [] con = con
each ((i, c) ∷ rows) con = each rows (print_interface i c con)

print_all-each :
    (current delta : Map String Interface) (con : Console) (n : ℕ)
    → AllIn current delta
    → print_all current delta (con, n)
      ≡ some (each (shown_in current delta) con, n + length (shown_in current delta))
unfolding print_all print_one print_found shown_in each
print_all-each current [] con n h = ap (λ k. some (con, k)) (omega arith)
print_all-each current ((_, i) ∷ delta) con n (c, found, h) = elim (Bool-cases (is_hidden i.name)) [
  | inl hidden ↦
      rw (found, shown_in)
        (rw (hidden, is_shown_hidden i c hidden, print_all, print_one)
          (print_all-each current delta con n h))
  | inr visible ↦ elim (Bool-cases (is_active i c)) [
    | inl active ↦
        rw (found, shown_in)
          (rw
            (
              is_shown_active i c visible ∙ active,
              visible,
              found,
              active,
              print_all,
              print_one,
              print_found,
            )
            (print_all-each current delta (print_interface i c con) (n + 1) h
              ∙ ap (λ k. some (each (shown_in current delta) (print_interface i c con), k))
                  (omega arith)))
    | inr idle ↦
        rw (found, shown_in)
          (rw
            (
              is_shown_active i c visible ∙ idle,
              visible,
              found,
              idle,
              print_all,
              print_one,
              print_found,
            )
            (print_all-each current delta con n h))
  ]
]

module _ ⦃env : Env⦄ where
  -- From a valid state, `print` meets no missing interface: it shows the header and, unless they are
  -- condensed, one line for each entry of `delta` that has the flag for up (as it was when the entry was
  -- made, since updates leave the flags alone), whose interface has received packets and has a name that
  -- begins with none of `utun`, `awdl` and `lo`, in the order of the map, and returns the number of
  -- these lines with the blank one.
  pub print_network_eq :
      (blank : Bool) (o : Options) (net : Network) (con : Console)
      → Interval.IsValid net
      → let rows = if o.condense_network then [] else shown_in net.current net.delta in
        print_network blank o net con
        ≡ some (end_section blank (each rows (header con), 1 + length rows))
  unfolding print_network each
  print_network_eq blank o net con h = elim (Bool-cases o.condense_network) [
    | inl short ↦ rw (short, print_network) refl
    | inr long ↦
        rw
          (
            long,
            print_network,
            print_all-each net.current net.delta (header con) 1
                (AllIn-Within net.current net.delta h.delta_named h.delta_within),
          )
          refl
  ]
