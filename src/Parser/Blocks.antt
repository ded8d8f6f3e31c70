-- ===== src/Parser/Blocks.antt =====
-- lib/Parser.cpp: the blocks that are owned, and those that have been lost.
use cctop.Prelude.{
  ℕ, suc, ◌+◌, ◌≤◌, ◌≡◌, refl, false, Option, none, some, List, [], ◌∷◌, ◌==◌, ==_iff,
  if◌then◌else◌, arith, length, Bool-cases, inl, inr, ◌++◌, length-append,
}
use cctop.Parser.Store.{Heap, alloc, take_out, free}

-- How often a block occurs.
unfoldable pub count : ℕ → List ℕ → ℕ
count k [] = 0
count k (b ∷ bs) = (if b == k then 1 else 0) + count k bs

-- The blocks are live, each as often as it occurs, and `leaks` other blocks are.
pub record Owns (bs : List ℕ) (leaks : ℕ) (h : Heap) : Type 0 where
  pub counted : (k : ℕ) → count k bs ≤ count k h.live
  pub number : length h.live ≡ length bs + leaks

abbrev Removed : ℕ → List ℕ → Option (List ℕ) → Type 0
Removed k bs none = count k bs ≡ 0
Removed k bs (some rest) =
    ((j : ℕ) → count j bs ≡ (if k == j then 1 else 0) + count j rest)
    × (length bs ≡ suc (length rest))

Removed-next :
    (k b : ℕ) (bs : List ℕ) (r : Option (List ℕ))
    → (b == k) ≡ false
    → Removed k bs r
    → Removed k (b ∷ bs) (elim r [ none ↦ none | some rest ↦ some (b ∷ rest) ])
unfolding count
Removed-next k b bs none e h = ground (arith, e, h)
Removed-next k b bs (some rest) e (h, l) = ((λ j. omega (arith, h j)), omega (arith, l))

take_out-Removed : (k : ℕ) (bs : List ℕ) → Removed k bs (take_out k bs)
unfolding take_out count
take_out-Removed k [] = refl
take_out-Removed k (b ∷ bs) = elim (Bool-cases (b == k)) [
  | inl same ↦ rw same ((λ j. ground (arith, (==_iff b k).0 same)), refl)
  | inr other ↦ rw other (Removed-next k b bs (take_out k bs) other (take_out-Removed k bs))
]

freed-Owns :
    (k : ℕ) (bs : List ℕ) (leaks : ℕ) (h : Heap) (r : Option (List ℕ))
    → Removed k h.live r
    → Owns (k ∷ bs) leaks h
    → (h' : Heap) × (elim r [ none ↦ none | some bs ↦ some (record h { live = bs }) ] ≡ some h')
      × Owns bs leaks h'
unfolding count
freed-Owns k bs leaks h none e o = absurd (ground (arith, e, o.counted k, ==_iff k k))
freed-Owns k bs leaks h (some rest) (e, l) o = (
  record h { live = rest },
  refl,
  record { counted = λ j. omega (arith, e j, o.counted j); number = omega (arith, l, o.number) },
)

-- A block that is owned can be freed.
pub free-Owns :
    (k : ℕ) (bs : List ℕ) (leaks : ℕ) (h : Heap)
    → Owns (k ∷ bs) leaks h
    → (h' : Heap) × (free k h ≡ some h') × Owns bs leaks h'
unfolding free
free-Owns k bs leaks h o = freed-Owns k bs leaks h (take_out k h.live) (take_out-Removed k h.live) o

pub alloc-Owns :
    (bs : List ℕ) (leaks : ℕ) (h : Heap)
    → Owns bs leaks h
    → Owns ((alloc h).0 ∷ bs) leaks (alloc h).1
unfolding alloc count
alloc-Owns bs leaks h o = record {
  counted = λ k. omega (arith, o.counted k);
  number = omega (arith, o.number);
}

pub leak-Owns :
    (k : ℕ) (bs : List ℕ) (leaks : ℕ) (h : Heap) → Owns (k ∷ bs) leaks h → Owns bs (suc leaks) h
unfolding count
leak-Owns k bs leaks h o = record {
  counted = λ j. omega (arith, o.counted j);
  number = omega (arith, o.number);
}

count-append : (k : ℕ) (xs ys : List ℕ) → count k (xs ++ ys) ≡ count k xs + count k ys
unfolding count
count-append k [] ys = omega arith
count-append k (x ∷ xs) ys = omega (arith, count-append k xs ys)

pub Owns-swap :
    (xs ys zs : List ℕ) (leaks : ℕ) (h : Heap)
    → Owns (xs ++ (ys ++ zs)) leaks h
    → Owns (ys ++ (xs ++ zs)) leaks h
Owns-swap xs ys zs leaks h o = record {
  counted = λ k. omega (
    arith,
    o.counted k,
    count-append k xs (ys ++ zs),
    count-append k ys zs,
    count-append k ys (xs ++ zs),
    count-append k xs zs,
  );
  number = omega (
    arith,
    o.number,
    length-append xs (ys ++ zs),
    length-append ys zs,
    length-append ys (xs ++ zs),
    length-append xs zs,
  );
}

pub Owns-last :
    (xs ys : List ℕ) (k leaks : ℕ) (h : Heap)
    → Owns (xs ++ (ys ++ k ∷ [])) leaks h
    → Owns (k ∷ (xs ++ (ys ++ []))) leaks h
unfolding count
Owns-last xs ys k leaks h o = record {
  counted = λ j. omega (
    arith,
    o.counted j,
    count-append j xs (ys ++ k ∷ []),
    count-append j ys (k ∷ []),
    count-append j xs (ys ++ []),
    count-append j ys [],
  );
  number = omega (
    arith,
    o.number,
    length-append xs (ys ++ k ∷ []),
    length-append ys (k ∷ []),
    length-append xs (ys ++ []),
    length-append ys [],
  );
}
