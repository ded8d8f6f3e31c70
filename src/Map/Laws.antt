-- ===== src/Map/Laws.antt =====
-- Reading a map after a change.
use cctop.Prelude.{none, some, [], ◌∷◌, ◌≡◌, refl, arith, if◌then◌else◌, Option-cases, inl, inr}
use cctop.Map.{Key, Map, lookup, add, replace, insert, erase, Distinct}

module _ {ℓ κ} {K : Type ℓ} {V : Type κ} ⦃key : Key K⦄ where
  lookup-add :
      (k j : K) (v : V) (m : Map K V)
      → lookup k m ≡ none
      → lookup j (add k v m) ≡ (if key.eq k j then some v else lookup j m)
  unfolding lookup add
  lookup-add k j v [] h = refl
  lookup-add k j v ((i, w) ∷ m) h =
      ground (arith, key.eq_iff k j, key.eq_iff i k, key.eq_iff i j, lookup-add k j v m)

  lookup-replace :
      (k j : K) (v u : V) (m : Map K V)
      → lookup k m ≡ some u
      → lookup j (replace k v m) ≡ (if key.eq k j then some v else lookup j m)
  unfolding lookup replace
  lookup-replace k j v u [] h = cc
  lookup-replace k j v u ((i, w) ∷ m) h =
      ground (arith, key.eq_iff k j, key.eq_iff i k, key.eq_iff i j, lookup-replace k j v u m)

  -- The law of `m[k] = v`, at every key.
  pub lookup-insert :
      (k j : K) (v : V) (m : Map K V)
      → lookup j (insert k v m) ≡ (if key.eq k j then some v else lookup j m)
  unfolding insert
  lookup-insert k j v m = elim (Option-cases (lookup k m)) [
    | inl e ↦ rw (e, insert) (lookup-add k j v m e)
    | inr (u, e) ↦ rw (e, insert) (lookup-replace k j v u m e)
  ]

  -- The law of `m.erase(k)`.
  pub lookup-erase :
      (k j : K) (m : Map K V)
      → Distinct m
      → lookup j (erase k m) ≡ (if key.eq k j then none else lookup j m)
  unfolding lookup erase
  lookup-erase k j [] h = ground arith
  lookup-erase k j ((i, w) ∷ m) (h, hs) =
      ground (arith, key.eq_iff k j, key.eq_iff i k, key.eq_iff i j, lookup-erase k j m hs)

  add-Distinct :
      (k : K) (v : V) (m : Map K V) → lookup k m ≡ none → Distinct m → Distinct (add k v m)
  unfolding lookup add
  add-Distinct k v [] e d = (refl, tt)
  add-Distinct k v ((i, w) ∷ m) e (h, d) =
      ground (arith, key.eq_iff i k, key.eq_iff k i, lookup-add k i v m, add-Distinct k v m)

  replace-Distinct :
      (k : K) (v u : V) (m : Map K V) → lookup k m ≡ some u → Distinct m → Distinct (replace k v m)
  unfolding lookup replace
  replace-Distinct k v u [] e d = tt
  replace-Distinct k v u ((i, w) ∷ m) e (h, d) =
      ground
        (arith, key.eq_iff i k, key.eq_iff k i, lookup-replace k i v u m, replace-Distinct k v u m)

  pub insert-Distinct : (k : K) (v : V) (m : Map K V) → Distinct m → Distinct (insert k v m)
  unfolding insert
  insert-Distinct k v m d = elim (Option-cases (lookup k m)) [
    | inl e ↦ rw (e, insert) (add-Distinct k v m e d)
    | inr (u, e) ↦ rw (e, insert) (replace-Distinct k v u m e d)
  ]

  pub erase-Distinct : (k : K) (m : Map K V) → Distinct m → Distinct (erase k m)
  unfolding lookup erase
  erase-Distinct k [] d = tt
  erase-Distinct k ((i, w) ∷ m) (h, d) =
      ground (arith, key.eq_iff i k, key.eq_iff k i, lookup-erase k i m d, erase-Distinct k m d)
