-- ===== src/Map/Order.antt =====
-- The order of the keys: texts are compared by the numbers of their characters, as `strcmp` does.
use Prim.Native.Nat.{Ordering, compare as compare_nat}
use Prim.Native.Char.{code}
use Prim.Native.String.{String, [], ◌∷◌, compare, then}
use Prim.Native.Nat.compare as nat_order
use Prim.Native.String.compare as text_order
use cctop.Prelude.{ℕ, zero, suc, ◌≡◌, refl, true, false}
use cctop.Map.{str_less}

abbrev turned : Ordering → Ordering
turned Ordering.lt = Ordering.gt
turned Ordering.eq = Ordering.eq
turned Ordering.gt = Ordering.lt

compare_nat-turned : (m n : ℕ) → compare_nat n m ≡ turned (compare_nat m n)
compare_nat-turned zero zero = rw nat_order.zero-zero refl
compare_nat-turned zero (suc n) = rw (nat_order.zero-suc n, nat_order.suc-zero n) refl
compare_nat-turned (suc m) zero = rw (nat_order.zero-suc m, nat_order.suc-zero m) refl
compare_nat-turned (suc m) (suc n) =
    rw (nat_order.suc-suc m n, nat_order.suc-suc n m) (compare_nat-turned m n)

then-turned : (a b : Ordering) → then (turned a) (turned b) ≡ turned (then a b)
then-turned Ordering.lt b = refl
then-turned Ordering.eq b = refl
then-turned Ordering.gt b = refl

compare-turned : (s t : String) → compare t s ≡ turned (compare s t)
compare-turned [] [] = rw text_order.nil-nil refl
compare-turned [] (d ∷ t) = rw (text_order.nil-cons d t, text_order.cons-nil d t) refl
compare-turned (c ∷ s) [] = rw (text_order.nil-cons c s, text_order.cons-nil c s) refl
compare-turned (c ∷ s) (d ∷ t) =
    rw
      (
        text_order.cons-cons c d s t,
        text_order.cons-cons d c t s,
        compare_nat-turned (code c) (code d),
        compare-turned s t,
      )
      (then-turned _ _)

less_asym :
    (o : Ordering)
    → elim o [ Ordering.lt ↦ true | _ ↦ false ] ≡ true
    → elim (turned o) [ Ordering.lt ↦ true | _ ↦ false ] ≡ false
less_asym Ordering.lt e = refl
less_asym Ordering.eq e = refl
less_asym Ordering.gt e = cc

pub str_less_asym : (s t : String) → str_less s t ≡ true → str_less t s ≡ false
str_less_asym s t e = rw (str_less, compare-turned s t) (less_asym (compare s t) e)
