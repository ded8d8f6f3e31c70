-- ===== src/Console/Pairs.antt =====
-- lib/Console.cpp: the table of colour pairs, which `#if 0` leaves out of the program. `init_pair` of
-- ncurses, a parameter, tells whether it can make a pair. The lines for the debug log are left out.
use cctop.Prelude.{
  ℕ, suc, ◌+◌, Bool, true, false, ◌&&◌, ◌||◌, Option, none, some, List, [], ◌∷◌, ◌==◌, ltb, leb,
  drop, set, map, replicate, get_elem?, if◌then◌else◌, not,
}

abbrev pub max_color_pair : ℕ
max_color_pair = 256

pub record ConsolePair : Type 0 where
  pub fg : ℕ
  pub bg : ℕ
  pub count : ℕ
  pub is_set : Bool

abbrev pub zeroed_pair : ConsolePair
zeroed_pair = record { fg = 0; bg = 0; count = 0; is_set = false }

abbrev pub Table : Type 0
Table = List ConsolePair

-- `allocated_pairs` at the start.
abbrev pub allocated_pairs : Table
allocated_pairs = replicate max_color_pair zeroed_pair

unfoldable pub xinit_color_pairs : Table → Table
xinit_color_pairs t = map (λ (p : ConsolePair). record p { is_set = false }) t

-- `p[i].set && p[i].fg == fg && p[i].bg == bg`
unfoldable pub has_colors : (fg bg : ℕ) → ConsolePair → Bool
has_colors fg bg p = p.is_set && p.fg == fg && p.bg == bg

-- The first pair with the colours, which is counted; `none` is -1.
unfoldable pub find_color_pair : (fg bg : ℕ) → Table → Option (ℕ × Table)
find_color_pair fg bg [] = none
find_color_pair fg bg (p ∷ t) =
    let rest = find_color_pair fg bg t in
    if has_colors fg bg p
    then some (0, record p { count = suc p.count } ∷ t)
    else (elim rest [ none ↦ none | some (i, t') ↦ some (suc i, p ∷ t') ])

-- The loop of `_find_oldest_pair` from `i` on.
unfoldable pub oldest_from : (i lowind lowval : ℕ) → Table → ℕ
oldest_from i lowind lowval [] = lowind
oldest_from i lowind lowval (p ∷ t) =
    let lower = oldest_from (i + 1) i p.count t in
    let other = oldest_from (i + 1) lowind lowval t in
    if not p.is_set then i else if lowval == 0 || ltb p.count lowval then lower else other

unfoldable pub find_oldest_pair : Table → ℕ
find_oldest_pair t = oldest_from 1 0 0 (drop 1 t)

-- `alloc_color_pair`; `none` is -1.
unfoldable pub alloc_color_pair : (ℕ → ℕ → ℕ → Bool) → (fg bg : ℕ) → Table → Option ℕ × Table
alloc_color_pair init_pair fg bg t = elim (find_color_pair fg bg t) [
  | some (i, t') ↦ (some i, t')
  | none ↦
      let i = find_oldest_pair t in
      if init_pair i fg bg
      then (some i, set t i (record { fg = fg; bg = bg; count = 0; is_set = true }))
      else (none, t)
]

-- `free_color_pair`, with whether it returns OK.
unfoldable pub free_color_pair : ℕ → Table → Bool × Table
free_color_pair pair t = elim (get_elem? t pair) [
  | none ↦ (false, t)
  | some p ↦
      if pair == 0 || leb max_color_pair pair || not p.is_set
      then (false, t)
      else (true, set t pair (record p { is_set = false }))
]
