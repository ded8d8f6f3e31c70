-- ===== src/Map.antt =====
-- What the program uses of std::map and std::unordered_map: entries under distinct keys. A std::map is
-- gone through in the order of its keys. (The order of an unordered_map is not specified; that of the
-- list is taken.) The values are never null pointers here: a key is entered with an object at once.
pub mod Laws
pub mod Order
use Prim.Native.Nat.{Ordering}
use Prim.Native.String.{compare}
use text.Mathlib.Text.{◌==◌ as str_eq}
use text.Mathlib.TextEquality.{eq_iff}
use cctop.Prelude.{
  ℕ, String, Bool, true, false, Option, none, some, List, [], ◌∷◌, ◌≡◌, ◌↔◌, ltb, ◌==◌ as nat_eq,
  ==_iff, if◌then◌else◌,
}

pub record Key {ℓ} (K : Type ℓ) : Type ℓ where
  pub eq : K → K → Bool
  pub less : K → K → Bool
  pub eq_iff : (a b : K) → (eq a b ≡ true) ↔ (a ≡ b)

abbrev pub str_less : String → String → Bool
str_less s t = elim (compare s t) [ Ordering.lt ↦ true | _ ↦ false ]

instance abbrev pub string_key : Key String
string_key = record { eq = str_eq; less = str_less; eq_iff = eq_iff }

instance abbrev pub nat_key : Key ℕ
nat_key = record { eq = nat_eq; less = ltb; eq_iff = ==_iff }

abbrev pub Map {ℓ κ} : Type ℓ → Type κ → Type (ℓ ⊔ κ)
Map K V = List (K × V)

module _ {ℓ κ} {K : Type ℓ} {V : Type κ} ⦃key : Key K⦄ where
  unfoldable pub lookup : K → Map K V → Option V
  lookup k [] = none
  lookup k ((j, v) ∷ m) = if key.eq j k then some v else lookup k m

  -- A key that is not there yet, at its place in the order.
  unfoldable pub add : K → V → Map K V → Map K V
  add k v [] = (k, v) ∷ []
  add k v ((j, w) ∷ m) = if key.less k j then (k, v) ∷ (j, w) ∷ m else (j, w) ∷ add k v m

  unfoldable pub replace : K → V → Map K V → Map K V
  replace k v [] = []
  replace k v ((j, w) ∷ m) = if key.eq j k then (j, v) ∷ m else (j, w) ∷ replace k v m

  -- `m[k] = v`
  unfoldable pub insert : K → V → Map K V → Map K V
  insert k v m = elim (lookup k m) [ none ↦ add k v m | some _ ↦ replace k v m ]

  -- `m.erase(k)`
  unfoldable pub erase : K → Map K V → Map K V
  erase k [] = []
  erase k ((j, w) ∷ m) = if key.eq j k then m else (j, w) ∷ erase k m

  -- No key twice.
  abbrev pub Distinct : Map K V → Type κ
  Distinct [] = Unit
  Distinct ((k, v) ∷ m) = (lookup k m ≡ none) × Distinct m
