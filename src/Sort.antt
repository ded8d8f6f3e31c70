-- ===== src/Sort.antt =====
-- Sorting as the program uses std::sort and qsort: any list sorted by a comparison, taken as an
-- insertion sort. (Those two do not fix the order of entries of which neither comes first.)
use mathlib.Core.List.{Perm}
use mathlib.Core.List.Perm
use cctop.Prelude.{
  suc, Bool, true, false, List, [], ◌∷◌, ◌≡◌, refl, ap, ◌∙◌, arith, length, if◌then◌else◌,
  Bool-cases, inl, inr,
}

module _ {ℓ} {A : Type ℓ} (before : A → A → Bool) where
  unfoldable pub insert : A → List A → List A
  insert x [] = x ∷ []
  insert x (y ∷ ys) = if before x y then x ∷ y ∷ ys else y ∷ insert x ys

  unfoldable pub sort : List A → List A
  sort [] = []
  sort (x ∷ xs) = insert x (sort xs)

  -- No entry comes before its predecessor.
  abbrev pub Ordered : List A → Type 0
  Ordered [] = Unit
  Ordered (x ∷ []) = Unit
  Ordered (x ∷ y ∷ ys) = (before y x ≡ false) × Ordered (y ∷ ys)

  abbrev pub IsAsym : Type ℓ
  IsAsym = (x y : A) → before x y ≡ true → before y x ≡ false

  Ordered-insert : IsAsym → (x : A) (ys : List A) → Ordered ys → Ordered (insert x ys)
  unfolding insert
  Ordered-insert asym x [] h = tt
  Ordered-insert asym x (y ∷ []) h = ground (arith, asym x y)
  Ordered-insert asym x (y ∷ z ∷ zs) (h, hs) =
      ground (arith, asym x y, Ordered-insert asym x (z ∷ zs) hs)

  pub Ordered-sort : IsAsym → (xs : List A) → Ordered (sort xs)
  unfolding sort
  Ordered-sort asym [] = tt
  Ordered-sort asym (x ∷ xs) = Ordered-insert asym x (sort xs) (Ordered-sort asym xs)

  insert-perm : (x : A) (ys : List A) → Perm (insert x ys) (x ∷ ys)
  unfolding insert
  insert-perm x [] = Perm.refl (x ∷ [])
  insert-perm x (y ∷ ys) = elim (Bool-cases (before x y)) [
    | inl e ↦ rw e (Perm.refl (x ∷ y ∷ ys))
    | inr e ↦ rw e (Perm.trans (Perm.cons y (insert-perm x ys)) (Perm.swap x y ys))
  ]

  pub sort-perm : (xs : List A) → Perm (sort xs) xs
  unfolding sort
  sort-perm [] = Perm.refl []
  sort-perm (x ∷ xs) = Perm.trans (insert-perm x (sort xs)) (Perm.cons x (sort-perm xs))

  length-insert : (x : A) (ys : List A) → length (insert x ys) ≡ suc (length ys)
  unfolding insert
  length-insert x [] = refl
  length-insert x (y ∷ ys) = ground (arith, length-insert x ys)

  pub length-sort : (xs : List A) → length (sort xs) ≡ length xs
  unfolding sort
  length-sort [] = refl
  length-sort (x ∷ xs) = length-insert x (sort xs) ∙ ap suc (length-sort xs)
