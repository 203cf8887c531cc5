-- ===== src/Insertion/TinyLfu/Laws.antt =====
-- The laws that the cache relies on, for TinyLFU, and what a touch does to its answers.
use cachemere.Common.{
  ℕ, ◌+◌, ◌%◌, ◌^◌, ◌<◌, ◌≡◌, refl, sym, ◌∙◌, ◌⊎◌, Bool, true, arith, ok, ltb, Bool-cases,
  if◌then◌else◌, inl, inr,
}
use cachemere.Filter.BitSet.{BitSet, BitSetLaws}
use cachemere.Filter.Bloom.Membership.{
  bloom_add_total, maybe_contains_total, bloom_add-maybe_contains, clear-size,
}
use cachemere.Filter.Counting.Totals.{
  IsUsable, decay-IsUsable, clear-IsUsable, estimate_total, add_total,
}
use cachemere.Policy.{Event, inserted, updated, hit, missed, evicted, notify}
use cachemere.Policy.Laws.{InsertionLaws}
use cachemere.Insertion.TinyLfu.{
  tiny_lfu_policy, on_cache_hit, on_cache_miss, InsertionTinyLfu, clear, reset,
  estimate_count_for_key, should_add, should_replace, touch_item,
}

module _ {B : Type 0} {bitset : BitSet B} (laws : BitSetLaws bitset) where
  -- Both filters have a positive size.
  pub record IsSized (s : InsertionTinyLfu B) : Type 0 where
    pub gate : 0 < bitset.size s.gatekeeper.filter
    pub sketch : IsUsable s.frequency_sketch

  reset-IsSized : (s : InsertionTinyLfu B) → IsSized s → IsSized (reset bitset s)
  unfolding reset
  reset-IsSized s v = record {
    gate = omega (arith, v.gate, clear-size laws s.gatekeeper);
    sketch = decay-IsUsable s.frequency_sketch v.sketch;
  }

  module _ {K : Type 0} (hash : K → ℕ) where
    -- `touch_item` of TinyLFU, which hits and misses call, fails no assertion where both filters
    -- have a positive size, and keeps their sizes positive. Afterwards a key that `should_add` did
    -- not accept is accepted.
    pub touch_item_lem :
        (s : InsertionTinyLfu B) (k : K)
        → IsSized s
        → (s' : InsertionTinyLfu B) × (touch_item bitset hash s k ≡ ok s')
          × IsSized s'
          × ((should_add bitset hash s k ≡ ok true) ⊎ (should_add bitset hash s' k ≡ ok true))
    unfolding touch_item should_add
    touch_item_lem s k v =
        let (kept, asked) = maybe_contains_total laws hash s.gatekeeper k v.gate in
        elim (Bool-cases kept) [
          | inr first ↦
              let (g, run, size) = bloom_add_total laws hash s.gatekeeper k v.gate in
              let (g', run', found, others) =
                bloom_add-maybe_contains laws hash s.gatekeeper k v.gate in
              let same : ok g ≡ ok g' = sym run ∙ run' in
              (
                record s { gatekeeper = g },
                ground (arith, asked, first, run),
                record { gate = size; sketch = v.sketch },
                inr (ground (arith, same, found)),
              )
          | inl again ↦
              let (c, run, usable) = add_total hash s.frequency_sketch k v.sketch in
              let (count, counted) = estimate_total hash c k usable in
              let mid : InsertionTinyLfu B = record s { frequency_sketch = c } in
              let mid_sized : IsSized mid = record { gate = v.gate; sketch = usable } in
              elim (Bool-cases (ltb c.cardinality count)) [
                | inl over ↦ (
                  reset bitset mid,
                  ground (arith, asked, again, run, counted, over),
                  reset-IsSized mid mid_sized,
                  inl (ground (arith, asked, again)),
                )
                | inr under ↦ (
                  mid,
                  ground (arith, asked, again, run, counted, under),
                  mid_sized,
                  inl (ground (arith, asked, again)),
                )
              ]
        ]

    estimate_count_total :
        (s : InsertionTinyLfu B) (k : K)
        → IsSized s
        → (n : ℕ) × (estimate_count_for_key bitset hash s k ≡ ok n)
    unfolding estimate_count_for_key
    estimate_count_total s k v =
        let (e, counted) = estimate_total hash s.frequency_sketch k v.sketch in
        let (kept, asked) = maybe_contains_total laws hash s.gatekeeper k v.gate in
        ((if kept then (e + 1) % 2 ^ 32 else e), rw (counted, asked) refl)

    should_replace_total :
        (s : InsertionTinyLfu B) (victim candidate : K)
        → IsSized s
        → (b : Bool) × (should_replace bitset hash s victim candidate ≡ ok b)
    unfolding should_replace
    should_replace_total s victim candidate v =
        let (a, run) = estimate_count_total s candidate v in
        let (b, run') = estimate_count_total s victim v in (ltb b a, rw (run, run') refl)

module _ {K V B : Type 0} {bitset : BitSet B} (laws : BitSetLaws bitset) (hash : K → ℕ) where
  -- The policy meets the laws of the cache, where its first filters have a positive size.
  pub tiny_lfu-InsertionLaws :
      (initial : InsertionTinyLfu B)
      → IsSized laws initial
      → InsertionLaws {V = V} (tiny_lfu_policy bitset hash initial) (IsSized laws)
  unfolding clear should_add on_cache_hit on_cache_miss
  tiny_lfu-InsertionLaws initial sized = record {
    initial-Good = sized;
    clear-Good = λ s v. record {
      gate = omega (arith, v.gate, clear-size laws s.gatekeeper);
      sketch = clear-IsUsable s.frequency_sketch v.sketch;
    };
    should_add_total = λ s k v. maybe_contains_total laws hash s.gatekeeper k v.gate;
    should_replace_total = should_replace_total laws hash;
    notify-Good = handled;
  }
    where
      touched :
          (s : InsertionTinyLfu B) (k : K)
          → IsSized laws s
          → (s' : InsertionTinyLfu B) × (touch_item bitset hash s k ≡ ok s') × IsSized laws s'
      touched s k v = let (s', run, v', _) = touch_item_lem laws hash s k v in (s', run, v')

      handled :
          (s : InsertionTinyLfu B) (e : Event K V)
          → IsSized laws s
          → (s' : InsertionTinyLfu B) × (notify
                (tiny_lfu_policy {V = V} bitset hash initial).handlers
                e
                s
              ≡ ok s')
            × IsSized laws s'
      handled s (inserted k item) v = (s, refl, v)
      handled s (updated k old new) v = (s, refl, v)
      handled s (hit k item) v = touched s k v
      handled s (missed k) v = touched s k v
      handled s (evicted k item) v = (s, refl, v)
