-- ===== src/Eviction/Gdsf/Timely.antt =====
-- GDSF policies whose costs keep every coefficient in the range of the clock.
use mathlib.Core.List.{erase, lookup}
use cachemere.Common.{
  All, ℕ, max, if_pos, if_neg, ok_inj, ◌⊎◌, Option, none, ◌≡◌, ◌<◌, ◌^◌, refl, sym, ◌∙◌, ap, subst,
  ite, true, false, some, [], ◌∷◌, arith, Outcome, ok, contains, erase_key, ℕ_discrete, Bool-cases,
  inl, inr, contains-erase,
}
use cachemere.Common.Maps.{HashMap, HashMapLaws}
use cachemere.Double.{Double}
use cachemere.Item.{Item}
use cachemere.Policy.Laws.{IsMeasured}
use cachemere.Filter.Counting.Totals.{IsUsable, add_total, estimate_bound}
use cachemere.LinkedList.{node_keys}
use cachemere.Eviction.Gdsf.{
  EvictionGdsf, victims, h_coefficient, on_insert, on_cache_hit, on_evict,
}
use cachemere.Eviction.Gdsf.Priorities.{
  PrioritySet, PriorityEntry, key_nodes, emplace, entry_at, contains-emplace,
}
use cachemere.Eviction.Gdsf.Placing.{Inv, Places, victims-node_keys, victims-erase}
use cachemere.Eviction.Gdsf.Handlers.{gdsf_insert_lem, gdsf_hit_lem, gdsf_evict_lem, without_entry}
use cachemere.Eviction.Gdsf.Laws.{victims-IsDistinct}

-- The clock has early values, 0 among them. By one of these, and an estimate of 32 bits, the
-- coefficient of an item that has the size of its key is a number whose integer part fits 64 bits and
-- is early.
pub record IsPriced {K V W : Type 0} (d : Double W) (measure_cost : K → Item V → W)
    (measure_key : K → ℕ) (IsEarly : ℕ → Type 0) : Type 0 where
  pub starts : IsEarly 0
  pub is_number :
      (clock count : ℕ) (k : K) (item : Item V)
      → IsEarly clock
      → count < 2 ^ 32
      → IsMeasured measure_key k item
      → d.is_nan (h_coefficient d measure_cost clock count k item) ≡ false
  pub fits :
      (clock count : ℕ) (k : K) (item : Item V)
      → IsEarly clock
      → count < 2 ^ 32
      → IsMeasured measure_key k item
      → d.in_u64 (h_coefficient d measure_cost clock count k item) ≡ true
  pub stays :
      (clock count : ℕ) (k : K) (item : Item V)
      → IsEarly clock
      → count < 2 ^ 32
      → IsMeasured measure_key k item
      → IsEarly (d.to_u64 (h_coefficient d measure_cost clock count k item))

abbrev from_some : {A : Type 0} → A → Option A → A
from_some a none = a
from_some a (some b) = b

max_cases : (a b : ℕ) → (max a b ≡ a) ⊎ (max a b ≡ b)
max_cases a b = ground arith

module _ {K W : Type 0} (d : Double W) (P : PriorityEntry K W → Type 0) where
  abbrev pub AllEntries : PrioritySet K W → Type 0
  AllEntries = All (λ n. P n.1)

  emplace-AllEntries :
      (node : ℕ × PriorityEntry K W) (set : PrioritySet K W)
      → P node.1
      → AllEntries set
      → AllEntries (emplace d node set)
  unfolding emplace
  emplace-AllEntries node [] here all = (here, tt)
  emplace-AllEntries node (n ∷ set) here all =
      elim (Bool-cases (d.less node.1.h_coefficient n.1.h_coefficient)) [
        | inl before ↦ rw (before, emplace) (here, all)
        | inr behind ↦ rw (behind, emplace) (all.0, emplace-AllEntries node set here all.1)
      ]

  erase-AllEntries :
      (it : ℕ) (set : PrioritySet K W) → AllEntries set → AllEntries (erase_key ℕ_discrete it set)
  erase-AllEntries it [] all = tt
  erase-AllEntries it (n ∷ set) all = elim (ℕ_discrete it n.0) [
    | yes same ↦ rw (if_pos (ℕ_discrete it n.0) same) all.1
    | no other ↦ rw (if_neg (ℕ_discrete it n.0) other) (all.0, erase-AllEntries it set all.1)
  ]

  entry_at-AllEntries :
      (it : ℕ) (set : PrioritySet K W) (entry : PriorityEntry K W)
      → AllEntries set
      → entry_at it set ≡ some entry
      → P entry
  unfolding lookup
  entry_at-AllEntries it [] entry all h = absurd (ground (arith, h))
  entry_at-AllEntries it (n ∷ set) entry all h = elim (ℕ_discrete it n.0) [
    | yes same ↦
        let this : some n.1 ≡ some entry = ground (arith, same, h) in
        subst P (ap (from_some n.1) this) all.0
    | no other ↦ entry_at-AllEntries it set entry all.1 (ground (arith, other, h))
  ]

module _ {K V W N : Type 0} {dec : Discrete K} {h : HashMap K ℕ N} (laws : HashMapLaws dec h)
    (d : Double W) (hash : K → ℕ) (measure_cost : K → Item V → W) {measure_key : K → ℕ}
    {IsEarly : ℕ → Type 0} (priced : IsPriced d measure_cost measure_key IsEarly) where
  open h use {find}

  -- The integer part of the coefficient fits the clock, and is early.
  abbrev pub IsCastable : PriorityEntry K W → Type 0
  IsCastable entry = (d.in_u64 entry.h_coefficient ≡ true) × IsEarly (d.to_u64 entry.h_coefficient)

  pub record Timely (s : EvictionGdsf K W N) : Type 0 where
    pub inv : Inv laws s
    pub clock : IsEarly s.clock
    pub entries : AllEntries d IsCastable s.priority_set

  -- A placement in a set, by a clock, that are timely.
  places_lem :
      (s : EvictionGdsf K W N) (k : K) (item : Item V) (outcome : Outcome (EvictionGdsf K W N))
      → IsUsable s.frequency_sketch
      → IsEarly s.clock
      → AllEntries d IsCastable s.priority_set
      → IsMeasured measure_key k item
      → Places laws d hash measure_cost s k item outcome
      → (s' : EvictionGdsf K W N) × (outcome ≡ ok s')
        × Timely s'
        × ((j : K) → contains dec j (victims s') ≡ ite (dec k j) true (contains dec j (victims s)))
  places_lem s k item outcome usable clock all sizes (sketch, count, added, counted, placed) =
      let (b, added', usable') = add_total hash s.frequency_sketch k usable in
      let same : b ≡ sketch = ok_inj b sketch (sym added' ∙ added) in
      let bound = estimate_bound hash sketch k count (subst IsUsable same usable') counted in
      elim placed [
        | inr (nan, failed) ↦
            absurd (ground (arith, nan, priced.is_number s.clock count k item clock bound sizes))
        | inl (number, (s', run, placed)) ↦ (
          s',
          run,
          record {
            inv = placed.inv;
            clock = subst IsEarly (sym placed.clock_same) clock;
            entries = subst (AllEntries d IsCastable) (sym placed.entries) (
                emplace-AllEntries d IsCastable (s.next_node, _) s.priority_set
                  (
                    priced.fits s.clock count k item clock bound sizes,
                    priced.stays s.clock count k item clock bound sizes,
                  )
                  all);
          },
          λ j.
              ap (contains dec j)
                (victims-node_keys s' ∙ ap (λ set. node_keys (key_nodes set)) placed.entries)
              ∙ contains-emplace d dec (s.next_node, _) s.priority_set j
              ∙ ap (λ l. ite (dec k j) true (contains dec j l)) (sym (victims-node_keys s)),
        )
      ]

  pub insert-Timely :
      (s : EvictionGdsf K W N) (k : K) (item : Item V)
      → Timely s
      → IsMeasured measure_key k item
      → contains dec k (victims s) ≡ false
      → (s' : EvictionGdsf K W N) × (on_insert d h hash measure_cost s k item ≡ ok s')
        × Timely s'
        × ((j : K) → contains dec j (victims s') ≡ ite (dec k j) true (contains dec j (victims s)))
  insert-Timely s k item v sizes new =
      places_lem s k item (on_insert d h hash measure_cost s k item) v.inv.sketch v.clock v.entries
        sizes (gdsf_insert_lem laws d hash measure_cost s k item v.inv new)

  pub hit-Timely :
      (s : EvictionGdsf K W N) (k : K) (item : Item V)
      → Timely s
      → IsMeasured measure_key k item
      → contains dec k (victims s) ≡ true
      → (s' : EvictionGdsf K W N) × (on_cache_hit d h hash measure_cost s k item ≡ ok s')
        × Timely s'
        × ((j : K) → contains dec j (victims s') ≡ contains dec j (victims s))
  hit-Timely s k item v sizes there =
      let (it, here, places) = gdsf_hit_lem laws d hash measure_cost s k item v.inv there in
      let rest = without_entry laws d hash measure_cost s it in
      let (s', run, v', held) =
        places_lem rest k item (on_cache_hit d h hash measure_cost s k item) v.inv.sketch v.clock
          (erase-AllEntries d IsCastable it s.priority_set v.entries) sizes places in
      (
        s',
        run,
        v',
        λ j.
            held j
            ∙ ap (λ l. ite (dec k j) true (contains dec j l))
                (victims-erase laws s rest k it v.inv here refl)
            ∙ ground (
              arith,
              contains-erase dec j k (victims s) (victims-IsDistinct laws s v.inv),
              there,
            ),
      )

  pub evict-Timely :
      (s : EvictionGdsf K W N) (k : K) (item : Item V)
      → Timely s
      → contains dec k (victims s) ≡ true
      → (s' : EvictionGdsf K W N) × (on_evict d h hash measure_cost s k item ≡ ok s')
        × Timely s'
        × (victims s' ≡ erase dec (victims s) k)
  evict-Timely s k item v there =
      let (it, entry, here, at_it, outcome) =
        gdsf_evict_lem laws d hash measure_cost s k item v.inv there in
      let (fits, early) =
        entry_at-AllEntries d IsCastable it s.priority_set entry v.entries at_it in
      elim outcome [
        | inr (beyond, failed) ↦ absurd (ground (arith, fits, beyond))
        | inl (fits', (s', run, v', left, entries, sketch, clock)) ↦ (
          s',
          run,
          record {
            inv = v';
            clock = elim (max_cases s.clock (d.to_u64 entry.h_coefficient)) [
              | inl e ↦ subst IsEarly (sym (clock ∙ e)) v.clock
              | inr e ↦ subst IsEarly (sym (clock ∙ e)) early
            ];
            entries =
                subst (AllEntries d IsCastable) (sym entries)
                  (erase-AllEntries d IsCastable it s.priority_set v.entries);
          },
          left,
        )
      ]
