-- ===== src/Eviction/Gdsf/Handlers.antt =====
-- What the handlers of a GDSF policy do to its victims, its coefficients and its clock.
use mathlib.Core.List.{erase}
use cachemere.Common.{
  ℕ, max, fault, undefined_behaviour, ◌⊎◌, false, Bool-cases, subst, ◌≡◌, refl, sym, true, some,
  arith, ok, contains, erase_key, ℕ_discrete, Option-cases, inl, inr,
}
use cachemere.Common.Maps.{HashMap, HashMapLaws}
use cachemere.Double.{Double}
use cachemere.Item.{Item}
use cachemere.Eviction.Gdsf.{EvictionGdsf, victims, on_insert, on_cache_hit, on_evict, cast_u64}
use cachemere.Eviction.Gdsf.Priorities.{PriorityEntry, entry_at}
use cachemere.Eviction.Gdsf.Indexed.{erase-IsTracked}
use cachemere.Eviction.Gdsf.Placing.{Inv, held, victims-erase, Places, place}

module _ {K V W N : Type 0} {dec : Discrete K} {h : HashMap K ℕ N} (laws : HashMapLaws dec h)
    (d : Double W) (hash : K → ℕ) (measure_cost : K → Item V → W) where
  open h use {find, insert_or_assign}

  -- `on_insert` of the GDSF policy, in a well-formed state and on a key that it does not hold,
  -- fails no assertion: the key is added to the sketch, and an entry for it is placed in the set,
  -- with a coefficient of the clock, the key's estimate in the new sketch, and the item. The clock
  -- stays, and the state stays well formed. It is undefined where that coefficient is a NaN.
  pub gdsf_insert_lem :
      (s : EvictionGdsf K W N) (k : K) (item : Item V)
      → Inv laws s
      → contains dec k (victims s) ≡ false
      → Places laws d hash measure_cost s k item (on_insert d h hash measure_cost s k item)
  gdsf_insert_lem s k item v new =
      place laws d hash measure_cost s s.iterator_map k item v.sketch v.tracked
        (ground (arith, held laws s k v))
        (λ j. laws.find-insert_or_assign s.iterator_map k j s.next_node)

  -- The state without the entry of `it`, before it is placed anew.
  abbrev pub without_entry : EvictionGdsf K W N → ℕ → EvictionGdsf K W N
  without_entry s it = record s { priority_set = erase_key ℕ_discrete it s.priority_set }

  -- `on_cache_hit` of the GDSF policy, in a well-formed state and on a key that it holds, fails no
  -- assertion: the key is added to the sketch, its entry is taken out of the set, and a new one is
  -- placed, with a coefficient of the clock, the key's estimate in the new sketch, and the item.
  -- The clock stays, and the state stays well formed. Where that coefficient is a NaN, by which the
  -- set has no order, the hit is undefined behaviour instead.
  pub gdsf_hit_lem :
      (s : EvictionGdsf K W N) (k : K) (item : Item V)
      → Inv laws s
      → contains dec k (victims s) ≡ true
      → (it : ℕ) × (find s.iterator_map k ≡ some it)
        × Places laws d hash measure_cost
            (without_entry s it)
            k
            item
            (on_cache_hit d h hash measure_cost s k item)
  unfolding on_cache_hit
  gdsf_hit_lem s k item v there = elim (Option-cases (find s.iterator_map k)) [
    | inl missing ↦ absurd (ground (arith, held laws s k v))
    | inr (it, here) ↦
        let (entry, at_it, erased, left) =
          erase-IsTracked laws s.priority_set s.iterator_map s.next_node it k v.tracked here in
        let placed =
          place laws d hash measure_cost (without_entry s it) (h.erase s.iterator_map k) k item
            v.sketch left (ground (arith, laws.find-erase s.iterator_map k k))
            (λ j. ground (
              arith,
              laws.find-insert_or_assign s.iterator_map k j s.next_node,
              laws.find-erase s.iterator_map k j,
            )) in
        (
          it,
          here,
          subst (Places laws d hash measure_cost (without_entry s it) k item)
              (sym (rw (here, erased, on_cache_hit) refl)) placed,
        )
  ]

  -- `on_evict` of the GDSF policy, in a well-formed state and on any key that it holds, fails no
  -- assertion. If the coefficient of its entry, without its fraction, fits 64 bits, the entry
  -- leaves the set, the other victims stay in their order, the sketch stays, the clock becomes that
  -- coefficient, rounded to zero, if that is later, and the state stays well formed; if it does not
  -- fit, as a NaN and an infinity do not, the conversion is undefined behaviour.
  pub gdsf_evict_lem :
      (s : EvictionGdsf K W N) (k : K) (item : Item V)
      → Inv laws s
      → contains dec k (victims s) ≡ true
      → (it : ℕ) × (entry : PriorityEntry K W) × (find s.iterator_map k ≡ some it)
        × (entry_at it s.priority_set ≡ some entry)
        × (((d.in_u64 entry.h_coefficient ≡ true)
              × ((s' : EvictionGdsf K W N) × (on_evict d h hash measure_cost s k item ≡ ok s')
                  × Inv laws s'
                  × (victims s' ≡ erase dec (victims s) k)
                  × (s'.priority_set ≡ erase_key ℕ_discrete it s.priority_set)
                  × (s'.frequency_sketch ≡ s.frequency_sketch)
                  × (s'.clock ≡ max s.clock (d.to_u64 entry.h_coefficient))))
            ⊎ ((d.in_u64 entry.h_coefficient ≡ false)
                × (on_evict d h hash measure_cost s k item ≡ fault undefined_behaviour)))
  unfolding on_evict cast_u64
  gdsf_evict_lem s k item v there = elim (Option-cases (find s.iterator_map k)) [
    | inl missing ↦ absurd (ground (arith, held laws s k v))
    | inr (it, here) ↦
        let (entry, at_it, erased, left) =
          erase-IsTracked laws s.priority_set s.iterator_map s.next_node it k v.tracked here in
        let s' : EvictionGdsf K W N = record s {
          clock = max s.clock (d.to_u64 entry.h_coefficient);
          priority_set = erase_key ℕ_discrete it s.priority_set;
          iterator_map = h.erase s.iterator_map k;
        } in
        (
          it,
          entry,
          here,
          at_it,
          elim (Bool-cases (d.in_u64 entry.h_coefficient)) [
            | inr beyond ↦ inr (beyond, ground (arith, here, at_it, beyond))
            | inl fits ↦ inl (
              fits,
              (
                s',
                ground (arith, here, at_it, fits, erased, laws.find-erase s.iterator_map k k),
                record { sketch = v.sketch; tracked = left },
                victims-erase laws s s' k it v here refl,
                refl,
                refl,
                refl,
              ),
            )
          ],
        )
  ]
