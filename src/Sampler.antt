-- ===== src/Sampler.antt =====
-- The scheme that macos/CPU.cpp, macos/Disk.cpp and macos/Network.cpp share: three maps from names
-- to objects with counters, `current` and `last` with the two latest readings and `delta` with their
-- difference. The components instantiate it.
pub mod Copy
pub mod Diff
pub mod Interval
pub mod Modify
use cctop.Prelude.{String, Option, none, some, List, [], ◌∷◌, ◌≡◌}
use cctop.Map.{Map, string_key, lookup, insert}

-- A class of objects with counters. `assign dst src` is the body of the loop of `copy`, and
-- `diff this newer older` the method `diff`; none of them touches the name.
pub record Stat {ℓ} (V : Type ℓ) : Type ℓ where
  pub name : V → String
  pub fresh : String → V
  pub assign : V → V → V
  pub diff : V → V → V → V
  pub name-fresh : (k : String) → name (fresh k) ≡ k
  pub name-assign : (d s : V) → name (assign d s) ≡ name d
  pub name-diff : (d n o : V) → name (diff d n o) ≡ name d
  -- `diff` reads only what `copy` copies
  pub diff-assign : (d n l o : V) → diff d n (assign l o) ≡ diff d n o

pub record Sampler {ℓ} (V : Type ℓ) : Type ℓ where
  pub last : Map String V
  pub current : Map String V
  pub delta : Map String V

abbrev pub with_default {ℓ} : {V : Type ℓ} → V → Option V → V
with_default d none = d
with_default d (some v) = v

module _ {ℓ} {V : Type ℓ} ⦃s : Stat V⦄ where
  -- The object under a name, a new one if there is none.
  unfoldable pub obtain : String → Map String V → V
  obtain k m = with_default (s.fresh k) (lookup k m)

  -- A round of the loop of `copy`.
  unfoldable pub enter : Map String V → V → Map String V
  enter dst o = insert (s.name o) (s.assign (obtain (s.name o) dst) o) dst

  -- `copy(dst, src)`
  unfoldable pub copy : Map String V → Map String V → Map String V
  copy dst [] = dst
  copy dst ((_, o) ∷ src) = copy (enter dst o) src

  -- The loop of `update` over `delta`; `none` is the use of a null pointer where a name is missing.
  unfoldable pub diff_all : (current last delta : Map String V) → Option (Map String V)
  diff_all current last [] = some []
  diff_all current last ((k, v) ∷ delta) = elim (lookup (s.name v) current) [
    | none ↦ none
    | some newer ↦ elim (lookup (s.name v) last) [
      | none ↦ none
      | some older ↦ elim (diff_all current last delta) [
        | none ↦ none
        | some rest ↦ some ((k, s.diff v newer older) ∷ rest)
      ]
    ]
  ]

  -- Every object stands under its name.
  abbrev pub Named : Map String V → Type 0
  Named [] = Unit
  Named ((k, v) ∷ m) = (s.name v ≡ k) × Named m

  -- A statement through a pointer `m[k]`, which is made to point to a new object first if it is null.
  unfoldable pub modify : String → (V → V) → Map String V → Map String V
  modify k f m = insert k (f (obtain k m)) m
