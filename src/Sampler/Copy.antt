-- ===== src/Sampler/Copy.antt =====
-- `copy`: what the destination holds afterwards.
use cctop.Prelude.{
  String, Option, none, some, [], ◌∷◌, ◌≡◌, refl, ◌∙◌, arith, if◌then◌else◌, Bool-cases,
  Option-cases, inl, inr,
}
use cctop.Map.{Map, string_key, lookup, add, replace, insert, Distinct}
use cctop.Map.Laws.{lookup-insert, insert-Distinct}
use cctop.Sampler.{Stat, with_default, obtain, enter, copy, Named}

module _ {ℓ} {V : Type ℓ} ⦃s : Stat V⦄ where
  add-Named : (k : String) (v : V) (m : Map String V) → s.name v ≡ k → Named m → Named (add k v m)
  unfolding add
  add-Named k v [] e n = (e, tt)
  add-Named k v ((j, w) ∷ m) e n = ground (arith, add-Named k v m)

  replace-Named :
      (k : String) (v : V) (m : Map String V) → s.name v ≡ k → Named m → Named (replace k v m)
  unfolding replace
  replace-Named k v [] e n = tt
  replace-Named k v ((j, w) ∷ m) e n = ground (arith, string_key.eq_iff j k, replace-Named k v m)

  pub insert-Named :
      (k : String) (v : V) (m : Map String V) → s.name v ≡ k → Named m → Named (insert k v m)
  unfolding insert
  insert-Named k v m e n = elim (Option-cases (lookup k m)) [
    | inl x ↦ rw (x, insert) (add-Named k v m e n)
    | inr (u, x) ↦ rw (x, insert) (replace-Named k v m e n)
  ]

  pub lookup-Named :
      (k : String) (m : Map String V) (v : V) → Named m → lookup k m ≡ some v → s.name v ≡ k
  unfolding lookup
  lookup-Named k [] v n e = cc
  lookup-Named k ((j, w) ∷ m) v n e = ground (arith, string_key.eq_iff j k, lookup-Named k m v)

  pub name-obtain : (k : String) (m : Map String V) → Named m → s.name (obtain k m) ≡ k
  unfolding obtain
  name-obtain k m n = elim (Option-cases (lookup k m)) [
    | inl e ↦ rw e (s.name-fresh k)
    | inr (v, e) ↦ rw e (lookup-Named k m v n e)
  ]

  enter-Named : (dst : Map String V) (o : V) → Named dst → Named (enter dst o)
  unfolding enter
  enter-Named dst o n = insert-Named _ _ dst (s.name-assign _ o ∙ name-obtain (s.name o) dst n) n

  enter-Distinct : (dst : Map String V) (o : V) → Distinct dst → Distinct (enter dst o)
  unfolding enter
  enter-Distinct dst o = insert-Distinct _ _ dst

  lookup-enter :
      (k : String) (dst : Map String V) (o : V)
      → lookup k (enter dst o) ≡ (
          if string_key.eq (s.name o) k
          then some (s.assign (obtain (s.name o) dst) o)
          else lookup k dst)
  unfolding enter
  lookup-enter k dst o = lookup-insert (s.name o) k _ dst

  pub copy-Named : (dst src : Map String V) → Named dst → Named (copy dst src)
  unfolding copy
  copy-Named dst [] n = n
  copy-Named dst ((k, o) ∷ src) n = copy-Named (enter dst o) src (enter-Named dst o n)

  pub copy-Distinct : (dst src : Map String V) → Distinct dst → Distinct (copy dst src)
  unfolding copy
  copy-Distinct dst [] d = d
  copy-Distinct dst ((k, o) ∷ src) d = copy-Distinct (enter dst o) src (enter-Distinct dst o d)

  -- What a copied map shows under a key, by what the source shows there.
  abbrev pub copied : String → Map String V → Option V → Option V
  copied k dst none = lookup k dst
  copied k dst (some o) = some (s.assign (with_default (s.fresh k) (lookup k dst)) o)

  copied_congr :
      (k : String) (dst dst' : Map String V) (o : Option V)
      → lookup k dst ≡ lookup k dst'
      → copied k dst o ≡ copied k dst' o
  copied_congr k dst dst' none e = e
  copied_congr k dst dst' (some o) e = rw e

  -- A copy has the source's counters under the source's names, and is the old destination elsewhere.
  pub lookup-copy :
      (k : String) (dst src : Map String V)
      → Distinct src
      → Named src
      → lookup k (copy dst src) ≡ copied k dst (lookup k src)
  unfolding copy lookup obtain
  lookup-copy k dst [] d n = refl
  lookup-copy k dst ((j, o) ∷ src) (new, d) (e, n) =
      let ih = lookup-copy k (enter dst o) src d n in
      let entered = lookup-enter k dst o in
      elim (Bool-cases (string_key.eq j k)) [
        | inl here ↦
            let same : j ≡ k = (string_key.eq_iff j k).0 here in
            let absent : lookup k src ≡ none = rw same at new in
            rw here (ground (arith, ih, entered, absent, same, e, string_key.eq_iff j k))
        | inr other ↦ rw other (
            ih
            ∙ copied_congr k (enter dst o) dst (lookup k src) (ground (arith, entered, e, other)))
      ]
