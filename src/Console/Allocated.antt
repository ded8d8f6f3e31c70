-- ===== src/Console/Allocated.antt =====
-- lib/Console.cpp: a colour pair that is allocated has its colours, in a place of the table.
use cctop.Prelude.{
  ℕ, suc, ◌+◌, ◌<◌, Bool, true, false, Option, none, some, [], ◌∷◌, ◌≡◌, refl, ap, arith, length,
  set, get_elem?, length-set, get_elem?-set_self, if◌then◌else◌, Bool-cases, inl, inr,
}
use cctop.Console.Pairs.{
  ConsolePair, Table, has_colors, find_color_pair, oldest_from, find_oldest_pair, alloc_color_pair,
}

-- A table of as many entries, with a pair of these colours at an index of it.
record Holds (fg bg : ℕ) (t : Table) (i : ℕ) (t' : Table) : Type 0 where
  same_length : length t' ≡ length t
  in_table : i < length t
  pair : ConsolePair
  at_index : get_elem? t' i ≡ some pair
  is_set : pair.is_set ≡ true
  fg_is : pair.fg ≡ fg
  bg_is : pair.bg ≡ bg

abbrev Found : (fg bg : ℕ) → Table → Option (ℕ × Table) → Type 0
Found fg bg t none = Unit
Found fg bg t (some (i, t')) = Holds fg bg t i t'

Found-cons :
    (fg bg : ℕ) (p : ConsolePair) (t : Table) (r : Option (ℕ × Table))
    → Found fg bg t r
    → Found fg bg (p ∷ t) (elim r [ none ↦ none | some (i, t') ↦ some (suc i, p ∷ t') ])
Found-cons fg bg p t none h = tt
Found-cons fg bg p t (some (i, t')) h = record {
  same_length = ap suc h.same_length;
  in_table = omega (arith, h.in_table);
  pair = h.pair;
  at_index = h.at_index;
  is_set = h.is_set;
  fg_is = h.fg_is;
  bg_is = h.bg_is;
}

colors_of :
    (fg bg : ℕ) (p : ConsolePair)
    → has_colors fg bg p ≡ true
    → (p.is_set ≡ true) × (p.fg ≡ fg) × (p.bg ≡ bg)
unfolding has_colors
colors_of fg bg p h = ground (arith, h)

find_color_pair-Found : (fg bg : ℕ) (t : Table) → Found fg bg t (find_color_pair fg bg t)
unfolding find_color_pair
find_color_pair-Found fg bg [] = tt
find_color_pair-Found fg bg (p ∷ t) = elim (Bool-cases (has_colors fg bg p)) [
  | inl same ↦
      let (on, f, b) = colors_of fg bg p same in
      rw (same, find_color_pair)
        (record {
          same_length = refl;
          in_table = omega arith;
          pair = record p { count = suc p.count };
          at_index = refl;
          is_set = on;
          fg_is = f;
          bg_is = b;
        })
  | inr other ↦ rw (other, find_color_pair) (Found-cons fg bg p t _ (find_color_pair-Found fg bg t))
]

oldest_from-lt :
    (i lowind lowval : ℕ) (t : Table) → lowind < i → oldest_from i lowind lowval t < i + length t
unfolding oldest_from
oldest_from-lt i lowind lowval [] h = omega (arith, h)
oldest_from-lt i lowind lowval (p ∷ t) h = ground (
  arith,
  oldest_from-lt (i + 1) i p.count t (omega arith),
  oldest_from-lt (i + 1) lowind lowval t (omega (arith, h)),
)

find_oldest_pair-lt : (t : Table) → 0 < length t → find_oldest_pair t < length t
unfolding find_oldest_pair
find_oldest_pair-lt (p ∷ t) h = omega (arith, oldest_from-lt 1 0 0 t (omega arith))
find_oldest_pair-lt [] h = absurd (omega (arith, h))

-- `alloc_color_pair` has answered -1 and left the table, or a place of the table that has the colours.
abbrev pub Allocated : (fg bg : ℕ) → Table → Option ℕ × Table → Type 0
Allocated fg bg t (none, t') = t' ≡ t
Allocated fg bg t (some i, t') =
    (length t' ≡ length t)
    × (i < length t)
    × ((p : ConsolePair) × (get_elem? t' i ≡ some p)
        × (p.is_set ≡ true)
        × (p.fg ≡ fg)
        × (p.bg ≡ bg))

made-Allocated :
    (fg bg i : ℕ) (t : Table) (ok : Bool)
    → i < length t
    → Allocated fg bg t (
        if ok
        then (some i, set t i (record { fg = fg; bg = bg; count = 0; is_set = true }))
        else (none, t))
made-Allocated fg bg i t true h =
    (length-set t i _, h, (_, get_elem?-set_self t i _ h, refl, refl, refl))
made-Allocated fg bg i t false h = refl

chosen-Allocated :
    (init_pair : ℕ → ℕ → ℕ → Bool) (fg bg : ℕ) (t : Table) (found : Option (ℕ × Table))
    → 0 < length t
    → Found fg bg t found
    → Allocated fg bg t (elim found [
      | some (i, t') ↦ (some i, t')
      | none ↦
          let i = find_oldest_pair t in
          if init_pair i fg bg
          then (some i, set t i (record { fg = fg; bg = bg; count = 0; is_set = true }))
          else (none, t)
    ])
chosen-Allocated init_pair fg bg t none h f =
    made-Allocated fg bg (find_oldest_pair t) t (init_pair (find_oldest_pair t) fg bg)
      (find_oldest_pair-lt t h)
chosen-Allocated init_pair fg bg t (some (i, t')) h f =
    (f.same_length, f.in_table, (f.pair, f.at_index, f.is_set, f.fg_is, f.bg_is))

-- For a table that is not empty, `alloc_color_pair` stays within it: it answers -1 and changes nothing,
-- if ncurses cannot make the pair, or an index of the table, where it leaves a pair that is set and has
-- the colours asked for; the table keeps its size.
pub alloc_color_pair-Allocated :
    (init_pair : ℕ → ℕ → ℕ → Bool) (fg bg : ℕ) (t : Table)
    → 0 < length t
    → Allocated fg bg t (alloc_color_pair init_pair fg bg t)
unfolding alloc_color_pair
alloc_color_pair-Allocated init_pair fg bg t h =
    chosen-Allocated init_pair fg bg t (find_color_pair fg bg t) h (find_color_pair-Found fg bg t)
