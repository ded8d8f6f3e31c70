-- ===== src/Sampler/Interval.antt =====
-- `update`, for any way to take a reading: `last` takes over the reading of the call before, and
-- `delta` then has the differences of the two.
use cctop.Prelude.{
  String, Option, none, some, [], ◌≡◌, refl, ap, ◌∙◌, arith, Option-cases, inl, inr,
}
use cctop.Map.{Map, string_key, lookup, Distinct}
use cctop.Sampler.{Stat, Sampler, with_default, copy, diff_all, Named}
use cctop.Sampler.Copy.{copied, lookup-copy, copy-Named, copy-Distinct}
use cctop.Sampler.Diff.{Within, differences, diff_all_total}

module _ {ℓ} {V : Type ℓ} ⦃s : Stat V⦄ where
  -- The state between two updates.
  pub record IsValid (p : Sampler V) : Type ℓ where
    pub current_named : Named p.current
    pub current_distinct : Distinct p.current
    pub last_named : Named p.last
    pub last_distinct : Distinct p.last
    pub delta_named : Named p.delta
    pub delta_within : Within p.delta p.current

  -- What a reading does to `current`: it keeps the names that are there.
  pub record IsReading (old new : Map String V) : Type ℓ where
    pub named : Named new
    pub distinct : Distinct new
    pub keeps : Within old new

  -- `copy(last, current); read(current);` and the loop over `delta`, where `read` has already been
  -- applied to `current`.
  unfoldable pub advance : Sampler V → Map String V → Option (Sampler V)
  advance p read =
      let last = copy p.last p.current in
      elim (diff_all read last p.delta) [
        | none ↦ none
        | some delta ↦ some (record { last = last; current = read; delta = delta })
      ]

  Within-trans : (a b c : Map String V) → Within a b → Within b c → Within a c
  Within-trans a b c f g k v e = let (u, e') = f k v e in g k u e'

  pub Within-copy : (dst src : Map String V) → Distinct src → Named src → Within src (copy dst src)
  Within-copy dst src d n k v e = (_, lookup-copy k dst src d n ∙ ap (copied k dst) e)

  -- A name that the differences show is one of the old `delta`.
  Within-differences :
      (current last delta new : Map String V)
      → ((k : String) → lookup k new ≡ differences current last k (lookup k delta))
      → Within new delta
  Within-differences current last delta new at k v e = elim (Option-cases (lookup k delta)) [
    | inl gone ↦ absurd (ground (arith, at k, ap (differences current last k) gone))
    | inr found ↦ found
  ]

  -- What an update of `p` with the reading `read` leaves as `q`: a valid state with the same names
  -- in `delta`, where each object `v` now has the difference of its new and its last reading.
  pub record Advances (p : Sampler V) (read : Map String V) (q : Sampler V) : Type ℓ where
    pub valid : IsValid q
    pub current : q.current ≡ read
    pub same_names : Within q.delta p.delta
    pub shows :
        (k : String) (v : V)
        → lookup k p.delta ≡ some v
        → (n : V) × (o : V) × (lookup k read ≡ some n)
          × (lookup k p.current ≡ some o)
          × (lookup k q.delta ≡ some (s.diff v n o))

  shows_lem :
      (p : Sampler V) (read new : Map String V) (k : String) (v : V)
      → IsValid p
      → IsReading p.current read
      → lookup k new ≡ differences read (copy p.last p.current) k (lookup k p.delta)
      → lookup k p.delta ≡ some v
      → (n : V) × (o : V) × (lookup k read ≡ some n)
        × (lookup k p.current ≡ some o)
        × (lookup k new ≡ some (s.diff v n o))
  shows_lem p read new k v h r at e =
      let (o, eo) = h.delta_within k v e in
      let (n, en) = r.keeps k o eo in
      let copied_o = lookup-copy k p.last p.current h.current_distinct h.current_named in
      (
        n,
        o,
        en,
        eo,
        ground (
          arith,
          at,
          e,
          en,
          copied_o,
          eo,
          s.diff-assign v n (with_default (s.fresh k) (lookup k p.last)) o,
        ),
      )

  -- An update of a valid state with a reading that keeps the names meets no null pointer, and
  -- advances the state.
  pub advance_lem :
      (p : Sampler V) (read : Map String V)
      → IsValid p
      → IsReading p.current read
      → (q : Sampler V) × (advance p read ≡ some q) × Advances p read q
  unfolding advance
  advance_lem p read h r =
      let last = copy p.last p.current in
      let in_read = Within-trans p.delta p.current read h.delta_within r.keeps in
      let in_last =
        Within-trans p.delta p.current last h.delta_within
          (Within-copy p.last p.current h.current_distinct h.current_named) in
      let (new, done, named, at) = diff_all_total read last p.delta h.delta_named in_read in_last in
      let old_names = Within-differences read last p.delta new at in
      (
        record { last = last; current = read; delta = new },
        rw (done, advance),
        record {
          valid = record {
            current_named = r.named;
            current_distinct = r.distinct;
            last_named = copy-Named p.last p.current h.last_named;
            last_distinct = copy-Distinct p.last p.current h.last_distinct;
            delta_named = named;
            delta_within = Within-trans new p.delta read old_names in_read;
          };
          current = refl;
          same_names = old_names;
          shows = λ k v e. shows_lem p read new k v h r (at k) e;
        },
      )

  -- The state that a constructor leaves: all three maps have the first reading.
  pub fresh-IsValid :
      (current : Map String V)
      → Named current
      → Distinct current
      → IsValid (record { last = copy [] current; current = current; delta = copy [] current })
  unfolding lookup
  fresh-IsValid current n d = record {
    current_named = n;
    current_distinct = d;
    last_named = copy-Named [] current tt;
    last_distinct = copy-Distinct [] current tt;
    delta_named = copy-Named [] current tt;
    delta_within = λ k v e. elim (Option-cases (lookup k current)) [
      | inl gone ↦ absurd (ground (arith, e, lookup-copy k [] current d n, ap (copied k []) gone))
      | inr found ↦ found
    ];
  }
