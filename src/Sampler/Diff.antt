-- ===== src/Sampler/Diff.antt =====
-- The loop over `delta`: when it meets no null pointer, and what it leaves.
use cctop.Prelude.{
  String, Option, none, some, [], ◌∷◌, ◌≡◌, refl, ◌∙◌, arith, if◌then◌else◌, Bool-cases, inl, inr,
}
use cctop.Map.{Map, string_key, lookup}
use cctop.Sampler.{Stat, diff_all, Named}

module _ {ℓ} {V : Type ℓ} ⦃s : Stat V⦄ where
  -- Every name of the first map is a name of the second.
  abbrev pub Within : Map String V → Map String V → Type ℓ
  Within m n = (k : String) (v : V) → lookup k m ≡ some v → (u : V) × (lookup k n ≡ some u)

  -- The entry of the new `delta` under a key.
  abbrev pub differences : Map String V → Map String V → String → Option V → Option V
  differences current last k none = none
  differences current last k (some v) = elim (lookup k current) [
    | none ↦ none
    | some newer ↦ elim (lookup k last) [ none ↦ none | some older ↦ some (s.diff v newer older) ]
  ]

  -- Every entry has its counterpart in both maps.
  abbrev Covered : (current last delta : Map String V) → Type ℓ
  Covered current last [] = Unit
  Covered current last ((k, v) ∷ delta) =
      ((n : V) × (lookup k current ≡ some n))
      × ((o : V) × (lookup k last ≡ some o))
      × Covered current last delta

  -- Then the loop meets no null pointer, keeps the names, and leaves under each the differences.
  diff_all_lem :
      (current last delta : Map String V)
      → Named delta
      → Covered current last delta
      → (new : Map String V) × (diff_all current last delta ≡ some new)
        × Named new
        × ((k : String) → lookup k new ≡ differences current last k (lookup k delta))
  unfolding diff_all lookup
  diff_all_lem current last [] n c = ([], refl, tt, λ k. refl)
  diff_all_lem current last ((k, v) ∷ delta) (e, n) ((newer, en), (older, eo), c) =
      let (rest, done, named, at) = diff_all_lem current last delta n c in
      (
        (k, s.diff v newer older) ∷ rest,
        ground (arith, e, en, eo, done),
        (s.name-diff v newer older ∙ e, named),
        λ j. ground (arith, at j, string_key.eq_iff k j, en, eo),
      )

  pub Within-tail : (k : String) (v : V) (m n : Map String V) → Within ((k, v) ∷ m) n → Within m n
  unfolding lookup
  Within-tail k v m n w j u e = elim (Bool-cases (string_key.eq k j)) [
    | inl same ↦ w j v (rw same)
    | inr other ↦ w j u (rw other e)
  ]

  Covered-Within :
      (current last delta : Map String V)
      → Within delta current
      → Within delta last
      → Covered current last delta
  unfolding lookup
  Covered-Within current last [] wc wl = tt
  Covered-Within current last ((k, v) ∷ delta) wc wl =
      let here : (if string_key.eq k k then some v else lookup k delta) ≡ some v =
        rw ((string_key.eq_iff k k).1 refl) in
      (
        wc k v here,
        wl k v here,
        Covered-Within current last delta (Within-tail k v delta current wc)
            (Within-tail k v delta last wl),
      )

  -- If every name of `delta` is one of the two readings, the loop meets no null pointer, keeps the
  -- names, and leaves the differences.
  pub diff_all_total :
      (current last delta : Map String V)
      → Named delta
      → Within delta current
      → Within delta last
      → (new : Map String V) × (diff_all current last delta ≡ some new)
        × Named new
        × ((k : String) → lookup k new ≡ differences current last k (lookup k delta))
  diff_all_total current last delta n wc wl =
      diff_all_lem current last delta n (Covered-Within current last delta wc wl)
