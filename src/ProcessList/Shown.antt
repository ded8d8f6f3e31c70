-- ===== src/ProcessList/Shown.antt =====
-- macos/ProcessList.cpp: which processes `print` shows, and in which order.
use mathlib.Core.List.{Perm}
use cctop.Prelude.{
  ℕ, map, ◌==◌, suc, ◌+◌, ◌-◌, ◌≤◌, Bool, true, false, List, [], ◌∷◌, ◌≡◌, refl, ap, arith, length,
  take, ◌||◌, if◌then◌else◌, Bool-cases, inl, inr, leb,
}
use cctop.Prelude.Int.{ℤ, pos_part}
use cctop.Terminal.{Env, Double, num}
use cctop.Options.{Options}
use cctop.Console.{Console, println}
use cctop.Console.Output.{end_section}
use cctop.Sort.{sort, Ordered, Ordered-sort, IsAsym, sort-perm}
use cctop.ProcessList.{
  ProcessList, print_process, is_full, print_list, header, lines_left, print_processes, sorted_of,
  cmp,
}
use std.Path.{subst}
use cctop.Map.{Map, nat_key, lookup}
use cctop.ProcessList.Cleaning.{if_seen, remove_all_unseen}
use cctop.ProcessList.Seen.{IsValid, Filed-lookup, cleaned}
use cctop.ProcessList.Entry.{Process}
use cctop.ProcessList.Users.{Accounts, Caches}

-- The elements that pass a test.
abbrev pub filter {ℓ} : {A : Type ℓ} → (A → Bool) → List A → List A
filter test [] = []
filter test (a ∷ rest) = if test a then a ∷ filter test rest else filter test rest

-- How many of `all` processes are shown: one if they are condensed, or else one more than there is room
-- for.
abbrev pub shown_of : Bool → (room all : ℕ) → ℕ
shown_of condensed room all =
    let most = if condensed then 1 else room + 1 in if leb all most then all else most

one_shown :
    (condensed : Bool) (lines : ℤ) (n all k : ℕ)
    → n ≤ pos_part lines
    → (condensed || is_full (n + 1) lines) ≡ true
    → k ≡ shown_of condensed (pos_part lines - n) (suc all)
    → k ≡ 1
unfolding is_full
one_shown condensed lines n all k h stop e = ground (arith, stop, e)

more_shown :
    (condensed : Bool) (lines : ℤ) (n all k : ℕ)
    → n ≤ pos_part lines
    → (condensed || is_full (n + 1) lines) ≡ false
    → k ≡ shown_of condensed (pos_part lines - n) (suc all)
    → (j : ℕ) × (k ≡ suc j)
      × (n + 1 ≤ pos_part lines)
      × (j ≡ shown_of condensed (pos_part lines - (n + 1)) all)
unfolding is_full
more_shown condensed lines n all k h more e = (
  shown_of condensed (pos_part lines - (n + 1)) all,
  ground (arith, more, e),
  ground (arith, more, e),
  refl,
)

-- The processes of a list that the last update has touched.
abbrev pub seen : ProcessList → List Process
seen l = filter (λ p. p.touched == l.touched) (map (λ (e : ℕ × Process). e.1) l.list)

sorted_of-filter :
    (touched : ℕ) (m : Map ℕ Process)
    → sorted_of touched m ≡ filter (λ p. p.touched == touched) (map (λ (e : ℕ × Process). e.1) m)
unfolding sorted_of
sorted_of-filter touched [] = refl
sorted_of-filter touched ((k, p) ∷ m) = ground (arith, sorted_of-filter touched m)

module _ ⦃env : Env⦄ where
  cmp-IsAsym : ((x y : Double) → env.lt x y ≡ true → env.lt y x ≡ false) → IsAsym cmp
  unfolding cmp
  cmp-IsAsym asym a b e = asym b.pct_cpu a.pct_cpu e

module _ ⦃env : Env⦄ (accounts : Accounts) where
  -- The lines of some processes, one after the other.
  unfoldable pub each : List Process → Caches × Console → Caches × Console
  each [] s = s
  each (p ∷ ps) s = each ps (print_process accounts p s)

  pub print_list-each :
      (o : Options) (lines : ℤ) (n : ℕ) (ps : List Process) (s : Caches × Console) (k : ℕ)
      → n ≤ pos_part lines
      → k ≡ shown_of o.condense_processes (pos_part lines - n) (length ps)
      → print_list accounts o lines n ps s ≡ (k, each (take k ps) s)
  unfolding print_list each
  print_list-each o lines n [] s k h e =
      let none_left : k ≡ 0 = ground (arith, e) in rw none_left refl
  print_list-each o lines n (p ∷ ps) s k h e =
      elim (Bool-cases (o.condense_processes || is_full (n + 1) lines)) [
        | inl stop ↦
            let one : k ≡ 1 = one_shown o.condense_processes lines n (length ps) k h stop e in
            rw one (ground (arith, stop))
        | inr more ↦
            let (j, next, room, rest) =
              more_shown o.condense_processes lines n (length ps) k h more e in
            let ih = print_list-each o lines (n + 1) ps (print_process accounts p s) j room rest in
            rw next (ground (arith, more, ih, ap (λ r. r.0) ih, ap (λ r. r.1) ih))
      ]

  -- In a valid state, and if the comparison of doubles is asymmetric, `print` shows the processes that the last update has
  -- seen in the order of their use of the cores, no process before one that uses less: as many
  -- of them as `shown_of` says, then their number, and it returns one line for each, the header, the
  -- number and the blank line. The list then has under each pid the process that it had, if the last
  -- update has seen it, and else none.
  pub print_processes_eq :
      (blank : Bool) (o : Options) (l : ProcessList) (caches : Caches) (c : Console)
      → IsValid l.touched l.list
      → ((x y : Double) → env.lt x y ≡ true → env.lt y x ≡ false)
      → let start = lines_left (header c) in
        (sorted : List Process) × (list : Map ℕ Process) × Ordered
          (λ (a b : Process). env.lt b.pct_cpu a.pct_cpu)
          sorted
        × Perm sorted (seen l)
        × ((pid : ℕ) → lookup pid list ≡ if_seen l.touched (lookup pid l.list))
        × (let k = shown_of o.condense_processes (pos_part start.1) (length sorted) in
            let shown = each (take k sorted) (caches, start.0) in
            print_processes accounts blank o l caches c ≡ (
              record l { list = list },
              (
                shown.0,
                end_section blank
                    (println "  %ld processes" (num (length sorted) ∷ []) shown.1, 2 + k),
              ),
            ))
  unfolding print_processes cmp
  print_processes_eq blank o l caches c valid asym =
      let sorted = sort cmp (sorted_of l.touched l.list) in
      let start = lines_left (header c) in
      let room : pos_part start.1 ≡ pos_part start.1 - 0 = omega arith in
      let shown =
        print_list-each o start.1 0 sorted (caches, start.0)
          (shown_of o.condense_processes (pos_part start.1) (length sorted)) (omega arith)
          (ap (λ r. shown_of o.condense_processes r (length sorted)) room) in
      (
        sorted,
        cleaned l,
        Ordered-sort cmp (cmp-IsAsym asym) (sorted_of l.touched l.list),
        subst (λ ps. Perm sorted ps) (sorted_of-filter l.touched l.list)
            (sort-perm cmp (sorted_of l.touched l.list)),
        λ pid.
            remove_all_unseen pid l.touched l.list valid.distinct
              (Filed-lookup l.list valid.distinct valid.filed),
        rw shown refl,
      )
