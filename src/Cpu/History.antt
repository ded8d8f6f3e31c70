-- ===== src/Cpu/History.antt =====
-- macos/CPU.cpp: `addHistory` is a queue of the 20 latest levels.
use cctop.Prelude.{
  ◌+◌, List, [], ◌∷◌, ◌++◌, ◌≡◌, refl, ap, arith, drop, length, set, get_or, length-append, ◌∙◌,
  suc,
}
use cctop.Prelude.Int.{ℤ}
use cctop.Cpu.Core.{CpuCore, cpu_history_size, unset, shift, add_history}
use std.Path.{sym}
use mathlib.Core.List.{append_assoc, append-nil}

-- The last of the list, `x` if there is none.
abbrev last_of : ℤ → List ℤ → ℤ
last_of x [] = x
last_of x (y ∷ ys) = last_of y ys

get_or-append :
    (p : List ℤ) (x y : ℤ) (ys : List ℤ) → get_or (p ++ x ∷ y ∷ ys) (length p + 1) unset ≡ y
get_or-append [] x y ys = refl
get_or-append (a ∷ p) x y ys = ground (arith, get_or-append p x y ys)

set-append : (p : List ℤ) (x v : ℤ) (ys : List ℤ) → set (p ++ x ∷ ys) (length p) v ≡ p ++ v ∷ ys
set-append [] x v ys = refl
set-append (a ∷ p) x v ys = ap (◌∷◌ a) (set-append p x v ys)

-- The loop moves every element one place down; the last one then stands twice.
shift_lem :
    (p : List ℤ) (x : ℤ) (xs : List ℤ)
    → shift (length xs) (length p) (p ++ x ∷ xs) ≡ p ++ (xs ++ last_of x xs ∷ [])
unfolding shift
shift_lem p x [] = refl
shift_lem p x (y ∷ ys) =
    let moved = shift_lem (p ++ y ∷ []) y ys in
    rw (get_or-append p x y ys, set-append p x y (y ∷ ys), shift)
      (simp (length-append, append_assoc) at moved)

-- For a history of 20 levels: the oldest one leaves in front and the new one joins at the end, so
-- the history keeps its 20 places.
add_history_lem :
    (h x : ℤ) (xs : List ℤ) (c : CpuCore)
    → c.history ≡ x ∷ xs
    → length c.history ≡ cpu_history_size
    → ((add_history h c).history ≡ xs ++ h ∷ [])
      × (length (add_history h c).history ≡ cpu_history_size)
unfolding add_history
add_history_lem h x xs c e full =
    let size : length xs ≡ 19 = omega (arith, ap length e) in
    let loop : shift 19 0 c.history ≡ xs ++ last_of x xs ∷ [] =
      rw (e, ← size) (shift_lem [] x xs) in
    let stored : set (shift 19 0 c.history) 19 h ≡ xs ++ h ∷ [] =
      rw (loop, ← size) (set-append xs (last_of x xs) h []) in
    (stored, rw stored (omega (arith, length-append xs (h ∷ []))))

-- Levels that `addHistory` gets one after the other.
unfoldable pub add_all : List ℤ → CpuCore → CpuCore
add_all [] c = c
add_all (h ∷ hs) c = add_all hs (add_history h c)

full_cons :
    (xs : List ℤ) → length xs ≡ cpu_history_size → (x : ℤ) × (rest : List ℤ) × (xs ≡ x ∷ rest)
full_cons [] e = absurd (omega (arith, e))
full_cons (x ∷ xs) e = (x, xs, refl)

-- A history of 20 places is a queue: after any levels, it has the 20 latest of those that it had and
-- that were added, in the order of their coming.
pub add_all_lem :
    (hs : List ℤ) (c : CpuCore)
    → length c.history ≡ cpu_history_size
    → ((add_all hs c).history ≡ drop (length hs) (c.history ++ hs))
      × (length (add_all hs c).history ≡ cpu_history_size)
unfolding add_all
add_all_lem [] c full = (sym (append-nil c.history), full)
add_all_lem (h ∷ hs) c full =
    let (x, xs, e) = full_cons c.history full in
    let (queued, size) = add_history_lem h x xs c e full in
    let (ih, kept) = add_all_lem hs (add_history h c) size in
    (
      ih
          ∙ ap (λ (q : List ℤ). drop (length hs) (q ++ hs)) queued
          ∙ ap (drop (length hs)) (append_assoc xs (h ∷ []) hs)
          ∙ ap (λ (q : List ℤ). drop (suc (length hs)) (q ++ h ∷ hs)) (sym e),
      kept,
    )
