-- ===== src/Insertion/TinyLfu/Touch.antt =====
-- What a touch does to the estimate of its key.
use cachemere.Common.{
  ℕ, ◌+◌, ◌/◌, ◌<◌, ◌≤◌, ◌≡◌, refl, sym, ◌∙◌, ap, subst, true, false, arith, ok, ok_inj, ltb,
  Bool-cases, inl, inr,
}
use cachemere.Filter.BitSet.{BitSet, BitSetLaws}
use cachemere.Filter.Bloom.Membership.{
  maybe_contains_total, bloom_add-maybe_contains, bloom_clear-maybe_contains,
}
use cachemere.Filter.Counting.{estimate, max_count}
use cachemere.Filter.Counting.Estimate.{counting_add-estimate}
use cachemere.Filter.Counting.Totals.{IsUsable, add_total}
use cachemere.Filter.Counting.Nonzero.{AllFit}
use cachemere.Filter.Counting.Tallied.{add_kept}
use cachemere.Filter.Counting.Decay.{decay-estimate}
use cachemere.Insertion.TinyLfu.{InsertionTinyLfu, reset, should_add, touch_item}
use cachemere.Insertion.TinyLfu.Laws.{IsSized}

module _ {B K : Type 0} {bitset : BitSet B} (laws : BitSetLaws bitset) (hash : K → ℕ) where
  -- Key `k` had the estimate `e` in the sketch of `s`, and a touch leads to `s'`.
  pub data Touched (s : InsertionTinyLfu B) (k : K) (e : ℕ) (s' : InsertionTinyLfu B) : Type 0 where
    noticed :
        should_add bitset hash s k ≡ ok false
        → should_add bitset hash s' k ≡ ok true
        → s'.frequency_sketch ≡ s.frequency_sketch
        → Touched s k e s'
    counted :
        should_add bitset hash s k ≡ ok true
        → e + 1 ≤ s.frequency_sketch.cardinality
        → estimate hash s'.frequency_sketch k ≡ ok (e + 1)
        → s'.gatekeeper ≡ s.gatekeeper
        → Touched s k e s'
    aged :
        should_add bitset hash s k ≡ ok true
        → s.frequency_sketch.cardinality < e + 1
        → estimate hash s'.frequency_sketch k ≡ ok ((e + 1) / 2)
        → ((j : K) → should_add bitset hash s' j ≡ ok false)
        → Touched s k e s'

  -- At a key that the gatekeeper has.
  touch_again :
      (s : InsertionTinyLfu B) (k : K) (e : ℕ)
      → IsSized laws s
      → 0 < s.gatekeeper.nb_hashes
      → AllFit s.frequency_sketch.filter
      → should_add bitset hash s k ≡ ok true
      → estimate hash s.frequency_sketch k ≡ ok e
      → e < max_count
      → (s' : InsertionTinyLfu B) × (touch_item bitset hash s k ≡ ok s') × Touched s k e s'
  unfolding touch_item should_add reset
  touch_again s k e v hashes fits again before small =
      let (d, estimated, raise) =
        counting_add-estimate hash s.frequency_sketch k v.sketch.counters v.sketch.hashes in
      let same : d ≡ e = ok_inj d e (sym estimated ∙ before) in
      elim raise [
        | inl full ↦ absurd (omega (arith, full, same, small))
        | inr (c, run, raised, others) ↦
            let (c', run', usable) = add_total hash s.frequency_sketch k v.sketch in
            let u = subst IsUsable (ok_inj c' c (sym run' ∙ run)) usable in
            let (fits', cardinality) = add_kept hash s.frequency_sketch c k v.sketch fits run in
            let after : estimate hash c k ≡ ok (e + 1) = raised ∙ ap (λ n. ok (n + 1)) same in
            let mid : InsertionTinyLfu B = record s { frequency_sketch = c } in
            elim (Bool-cases (ltb c.cardinality (e + 1))) [
              | inl over ↦
                  let (h, at, halved) = decay-estimate hash c k u fits' in
                  let whole : h ≡ e + 1 = ok_inj h (e + 1) (sym at ∙ after) in
                  (
                    reset bitset mid,
                    ground (arith, again, run, after, over),
                    aged again (ground (arith, over, cardinality))
                        (halved ∙ ap (λ n. ok (n / 2)) whole)
                        (λ j. bloom_clear-maybe_contains laws hash s.gatekeeper j v.gate hashes),
                  )
              | inr under ↦ (
                mid,
                ground (arith, again, run, after, under),
                counted again (ground (arith, under, cardinality)) after refl,
              )
            ]
      ]

  -- `touch_item` of TinyLFU, where both filters have a positive size and hashes, the counters have
  -- 32 bits, and the estimate `e` of the key in the sketch is below the greatest number of 32 bits,
  -- fails no assertion. A key that the gatekeeper has not got is then in it, and the sketch stays;
  -- for a key that it has, the sketch's estimate becomes `e + 1` and the gatekeeper stays, but
  -- where that passes the cardinality, the estimate becomes half of it, rounded down, and the
  -- gatekeeper has no key.
  pub touch_item-estimate :
      (s : InsertionTinyLfu B) (k : K) (e : ℕ)
      → IsSized laws s
      → 0 < s.gatekeeper.nb_hashes
      → AllFit s.frequency_sketch.filter
      → estimate hash s.frequency_sketch k ≡ ok e
      → e < max_count
      → (s' : InsertionTinyLfu B) × (touch_item bitset hash s k ≡ ok s') × Touched s k e s'
  unfolding touch_item should_add
  touch_item-estimate s k e v hashes fits before small =
      let (kept, asked) = maybe_contains_total laws hash s.gatekeeper k v.gate in
      elim (Bool-cases kept) [
        | inl again ↦ touch_again s k e v hashes fits (asked ∙ ap ok again) before small
        | inr first ↦
            let (g, run, found, others) =
              bloom_add-maybe_contains laws hash s.gatekeeper k v.gate in
            (
              record s { gatekeeper = g },
              ground (arith, asked, first, run),
              noticed (asked ∙ ap ok first) found refl,
            )
      ]
