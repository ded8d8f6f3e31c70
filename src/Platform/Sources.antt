-- ===== src/Platform/Sources.antt =====
-- macos/Platform.cpp: the charge of the battery and the uptime of the system. What IOKit says of a
-- power source, and what `sysctl` and `time` answer, are arguments.
use cctop.Prelude.{
  ℕ, ◌-◌, Bool, true, false, Option, none, some, List, [], ◌∷◌, ◌++◌, ◌≡◌, refl, ap, ◌⊎◌, inl, inr,
  arith, if◌then◌else◌, ◌∙◌,
}
use cctop.Prelude.Int.{ℤ}
use cctop.Prelude.Words.{sub64, u64_mod}
use cctop.Terminal.{Double, lit, of_int, mul, div}

-- The description of a power source: whether its transport is `kIOPSInternalType`, and its current and
-- its maximal capacity, `none` if either is missing.
pub record PowerSource : Type 0 where
  pub is_internal : Bool
  pub capacities : Option (ℤ × ℤ)

-- The loop over the sources, with the variable `source`. A source that is `none` has no description, or
-- one without a transport; there the loop uses a null pointer, and the result is `none`.
unfoldable pub find_source :
    Option PowerSource → List (Option PowerSource) → Option (Option PowerSource)
find_source source [] = some source
find_source source (none ∷ ss) = none
find_source source (some s ∷ ss) = if s.is_internal then some (some s) else find_source (some s) ss

unfoldable pub percent_of : Option PowerSource → Option Double
percent_of none = some (lit 0 0)
percent_of (some s) = elim s.capacities [
  | none ↦ none
  | some (cur, max) ↦ some (mul (div (of_int cur) (of_int max)) (lit 100 0))
]

unfoldable pub percent_found : Option (Option PowerSource) → Option Double
percent_found none = none
percent_found (some source) = percent_of source

-- `updateBattery`, from the list of the sources; `none` is a null pointer that is used, the first one
-- that of a list that there is not.
unfoldable pub update_battery : Option (List (Option PowerSource)) → Option Double
update_battery none = none
update_battery (some ss) = percent_found (find_source none ss)

-- `get_uptime`, from the time of the boot, which is `none` if `sysctl` fails, and the time. (Both are
-- whole seconds; as long as they are below 2^53 the double between them is exact.)
unfoldable pub get_uptime : Option ℕ → ℕ → ℕ
get_uptime none now = u64_mod - 1
get_uptime (some boot) now = sub64 now boot

-- Each of these sources has a description, with a transport that is not the internal one.
abbrev pub AllExternal : List (Option PowerSource) → Type 0
AllExternal [] = Unit
AllExternal (none ∷ ss) = ⊥
AllExternal (some s ∷ ss) = (s.is_internal ≡ false) × AllExternal ss

find_source_lem :
    (source : Option PowerSource) (before after : List (Option PowerSource)) (s : PowerSource)
    → AllExternal before
    → (s.is_internal ≡ true) ⊎ (after ≡ [])
    → find_source source (before ++ some s ∷ after) ≡ some (some s)
unfolding find_source
find_source_lem source [] after s h (inl internal) = rw internal refl
find_source_lem source [] after s h (inr last) = rw last (ground arith)
find_source_lem source (none ∷ before) after s h k = absurd h
find_source_lem source (some x ∷ before) after s (e, h) k =
    ground (arith, find_source_lem (some x) before after s h k)

-- Behind sources that are described and not internal, the charge is that of the first internal source;
-- if there is none, it is that of the last source, whatever that is: the quotient of its capacities, if
-- it has both.
pub update_battery_lem :
    (before after : List (Option PowerSource)) (s : PowerSource) (cur max : ℤ)
    → AllExternal before
    → (s.is_internal ≡ true) ⊎ (after ≡ [])
    → s.capacities ≡ some (cur, max)
    → update_battery (some (before ++ some s ∷ after))
      ≡ some (mul (div (of_int cur) (of_int max)) (lit 100 0))
unfolding update_battery percent_found percent_of
update_battery_lem before after s cur max h k e =
    ap percent_found (find_source_lem none before after s h k) ∙ rw e refl

-- All sources are described, with a transport and both capacities.
abbrev pub AllDescribed : List (Option PowerSource) → Type 0
AllDescribed [] = Unit
AllDescribed (none ∷ ss) = ⊥
AllDescribed (some s ∷ ss) = ((p : ℤ × ℤ) × (s.capacities ≡ some p)) × AllDescribed ss

abbrev Charged : Option (Option PowerSource) → Type 0
Charged found = (d : Double) × (percent_found found ≡ some d)

chosen-Charged :
    (b : Bool) (x y : Option (Option PowerSource))
    → Charged x
    → Charged y
    → Charged (if b then x else y)
chosen-Charged true x y h k = h
chosen-Charged false x y h k = k

find_source-Charged :
    (source : Option PowerSource) (ss : List (Option PowerSource))
    → Charged (some source)
    → AllDescribed ss
    → Charged (find_source source ss)
unfolding find_source percent_found percent_of
find_source-Charged source [] c h = c
find_source-Charged source (none ∷ ss) c h = absurd h
find_source-Charged source (some s ∷ ss) c (((cur, max), e), h) =
    let charged : Charged (some (some s)) =
      (mul (div (of_int cur) (of_int max)) (lit 100 0), rw e refl) in
    chosen-Charged s.is_internal (some (some s)) (find_source (some s) ss) charged
      (find_source-Charged (some s) ss charged h)

pub update_battery_total :
    (ss : List (Option PowerSource))
    → AllDescribed ss
    → (d : Double) × (update_battery (some ss) ≡ some d)
unfolding update_battery percent_found percent_of
update_battery_total ss h = find_source-Charged none ss (lit 0 0, refl) h
