-- ===== src/Sampler/Modify.antt =====
-- Readings that are made of `modify`.
use cctop.Prelude.{String, some, ◌≡◌, ◌∙◌, if◌then◌else◌, Bool-cases, inl, inr}
use cctop.Map.{Map, string_key, lookup, Distinct}
use cctop.Map.Laws.{lookup-insert, insert-Distinct}
use cctop.Sampler.{Stat, obtain, modify, Named}
use cctop.Sampler.Copy.{insert-Named, name-obtain}
use cctop.Sampler.Interval.{IsReading}

module _ {ℓ} {V : Type ℓ} ⦃s : Stat V⦄ where
  pub lookup-modify :
      (k j : String) (f : V → V) (m : Map String V)
      → lookup j (modify k f m) ≡ (if string_key.eq k j then some (f (obtain k m)) else lookup j m)
  unfolding modify
  lookup-modify k j f m = lookup-insert k j _ m

  pub modify-IsReading :
      (k : String) (f : V → V) (m : Map String V)
      → ((v : V) → s.name (f v) ≡ s.name v)
      → Named m
      → Distinct m
      → IsReading m (modify k f m)
  unfolding modify
  modify-IsReading k f m e n d = record {
    named = insert-Named k _ m (e _ ∙ name-obtain k m n) n;
    distinct = insert-Distinct k _ m d;
    keeps = λ j v h. elim (Bool-cases (string_key.eq k j)) [
      | inl same ↦ (f (obtain k m), lookup-insert k j _ m ∙ rw same)
      | inr other ↦ (v, lookup-insert k j _ m ∙ rw other h)
    ];
  }

  pub IsReading-trans : (a b c : Map String V) → IsReading a b → IsReading b c → IsReading a c
  IsReading-trans a b c x y = record {
    named = y.named;
    distinct = y.distinct;
    keeps = λ k v h. let (u, e) = x.keeps k v h in y.keeps k u e;
  }

  pub IsReading-refl : (a : Map String V) → Named a → Distinct a → IsReading a a
  IsReading-refl a n d = record { named = n; distinct = d; keeps = λ k v h. (v, h) }
