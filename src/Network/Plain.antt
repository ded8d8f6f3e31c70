-- ===== src/Network/Plain.antt =====
-- macos/Network.cpp: the display of the interfaces leaves nothing switched on.
use cctop.Console.Output.{end_section}
use cctop.Prelude.{
  ℕ, String, Bool, Option, none, some, [], ◌∷◌, ◌≡◌, refl, ◌∙◌, Bool-cases, inl, inr, ltb,
}
use cctop.Terminal.{Env}
use cctop.Map.{Map, lookup, string_key}
use cctop.Options.{Options}
use cctop.Console.{Console}
use cctop.Console.Pen.{pen, IsPlain, Plain, inverseln-IsPlain, pen-end_section, pen-println}
use cctop.Network.{
  Network, is_hidden, is_active, print_interface, print_found, print_one, print_all, header,
  print_network,
}
use cctop.Network.Traffic.{Interface}

pen-print_interface : (i k : Interface) (c : Console) → pen (print_interface i k c) ≡ pen c
unfolding print_interface
pen-print_interface i k c = elim (Bool-cases (ltb c.width 98)) [
  | inl narrow ↦ rw narrow (pen-println c _ _)
  | inr wide ↦ rw wide (pen-println c _ _)
]

pen-print_found : (i k : Interface) (c : Console) (n : ℕ) → pen (print_found i k (c, n)).0 ≡ pen c
unfolding print_found
pen-print_found i k c n = elim (Bool-cases (is_active i k)) [
  | inl active ↦ rw active (pen-print_interface i k c)
  | inr idle ↦ rw idle refl
]

found-Plain :
    (i : Interface) (c : Console) (n : ℕ) (found : Option Interface)
    → IsPlain c
    → Plain
        (Console × ℕ)
        (λ r. r.0)
        (elim found [ none ↦ none | some k ↦ some (print_found i k (c, n)) ])
found-Plain i c n none h = tt
found-Plain i c n (some k) h = pen-print_found i k c n ∙ h

print_one-Plain :
    (current : Map String Interface) (i : Interface) (c : Console) (n : ℕ)
    → IsPlain c
    → Plain (Console × ℕ) (λ r. r.0) (print_one current i (c, n))
unfolding print_one
print_one-Plain current i c n h = elim (Bool-cases (is_hidden i.name)) [
  | inl hidden ↦ rw (hidden, print_one) h
  | inr visible ↦ rw (visible, print_one) (found-Plain i c n (lookup i.name current) h)
]

next-Plain :
    (rest : Console × ℕ → Option (Console × ℕ)) (shown : Option (Console × ℕ))
    → Plain (Console × ℕ) (λ r. r.0) shown
    → ((c : Console) (n : ℕ) → IsPlain c → Plain (Console × ℕ) (λ r. r.0) (rest (c, n)))
    → Plain (Console × ℕ) (λ r. r.0) (elim shown [ none ↦ none | some out ↦ rest out ])
next-Plain rest none p h = tt
next-Plain rest (some (c, n)) p h = h c n p

print_all-Plain :
    (current delta : Map String Interface) (c : Console) (n : ℕ)
    → IsPlain c
    → Plain (Console × ℕ) (λ r. r.0) (print_all current delta (c, n))
unfolding print_all
print_all-Plain current [] c n h = h
print_all-Plain current ((_, i) ∷ delta) c n h =
    next-Plain (print_all current delta) (print_one current i (c, n))
      (print_one-Plain current i c n h) (λ d m p. print_all-Plain current delta d m p)

module _ ⦃env : Env⦄ where
  header-IsPlain : (c : Console) → IsPlain c → IsPlain (header c)
  unfolding header
  header-IsPlain c h = elim (Bool-cases (ltb c.width 98)) [
    | inl narrow ↦ rw narrow (inverseln-IsPlain _ _ c h)
    | inr wide ↦ rw wide (inverseln-IsPlain _ _ c h)
  ]

  ended-Plain :
      (blank : Bool) (shown : Option (Console × ℕ))
      → Plain (Console × ℕ) (λ r. r.0) shown
      → Plain
          (Console × ℕ)
          (λ r. r.0)
          (elim shown [ none ↦ none | some out ↦ some (end_section blank out) ])
  ended-Plain blank none p = tt
  ended-Plain blank (some (c, n)) p = pen-end_section blank c n ∙ p

  -- Unless it meets a null pointer, `print` leaves nothing switched on.
  pub print_network-Plain :
      (blank : Bool) (o : Options) (net : Network) (c : Console)
      → IsPlain c
      → Plain (Console × ℕ) (λ r. r.0) (print_network blank o net c)
  unfolding print_network
  print_network-Plain blank o net c h = elim (Bool-cases o.condense_network) [
    | inl short ↦
        rw (short, print_network) (pen-end_section blank (header c) 1 ∙ header-IsPlain c h)
    | inr long ↦
        rw (long, print_network)
          (ended-Plain blank (print_all net.current net.delta (header c, 1))
            (print_all-Plain net.current net.delta (header c) 1 (header-IsPlain c h)))
  ]
