-- ===== src/Insertion/TinyLfu.antt =====
-- include/cachemere/policy/insertion_tinylfu.{h,hpp}: a key that has been touched since the last reset
-- is wanted, and it replaces a victim that has been touched less often.
pub mod Laws
pub mod Cardinality
pub mod Touch
pub mod Views
use cachemere.Common.{
  ℕ, ◌+◌, ◌%◌, ◌^◌, Bool, true, false, none, some, Outcome, ok, ◌>>=◌, ltb, if◌then◌else◌,
}
use cachemere.Double.{Double}
use cachemere.Item.{Item}
use cachemere.Policy.{InsertionPolicy}
use cachemere.Filter.BitSet.{BitSet}
use cachemere.Filter.Bloom
use cachemere.Filter.Bloom.{BloomFilter, make_filter, maybe_contains}
use cachemere.Filter.Counting
use cachemere.Filter.Counting.{CountingBloomFilter, make_counters, estimate, decay}

pub record InsertionTinyLfu (B : Type 0) : Type 0 where
  pub gatekeeper : BloomFilter B
  pub frequency_sketch : CountingBloomFilter

abbrev pub default_cache_cardinality : ℕ
default_cache_cardinality = 2000

module _ {B W : Type 0} (bitset : BitSet B) (d : Double W) where
  pub set_cardinality : ℕ → Outcome (InsertionTinyLfu B)
  set_cardinality cardinality = do
    gatekeeper ← make_filter bitset d cardinality
    frequency_sketch ← make_counters d cardinality
    ok (record { gatekeeper = gatekeeper; frequency_sketch = frequency_sketch })

  -- A new policy.
  abbrev pub construct : Outcome (InsertionTinyLfu B)
  construct = set_cardinality default_cache_cardinality

module _ {B : Type 0} (bitset : BitSet B) where
  pub clear : InsertionTinyLfu B → InsertionTinyLfu B
  clear s = record {
    gatekeeper = Bloom.clear bitset s.gatekeeper;
    frequency_sketch = Counting.clear s.frequency_sketch;
  }

  pub reset : InsertionTinyLfu B → InsertionTinyLfu B
  reset s = record {
    gatekeeper = Bloom.clear bitset s.gatekeeper;
    frequency_sketch = decay s.frequency_sketch;
  }

  module _ {K : Type 0} (hash : K → ℕ) where
    pub estimate_count_for_key : InsertionTinyLfu B → K → Outcome ℕ
    estimate_count_for_key s key = do
      sketch_estimation ← estimate hash s.frequency_sketch key
      kept ← maybe_contains bitset hash s.gatekeeper key
      ok (if kept then (sketch_estimation + 1) % 2 ^ 32 else sketch_estimation)

    pub should_add : InsertionTinyLfu B → K → Outcome Bool
    should_add s key = maybe_contains bitset hash s.gatekeeper key

    pub should_replace : InsertionTinyLfu B → K → K → Outcome Bool
    unfolding estimate_count_for_key
    should_replace s victim candidate = do
      a ← estimate_count_for_key s candidate
      b ← estimate_count_for_key s victim
      ok (ltb b a)

    pub touch_item : InsertionTinyLfu B → K → Outcome (InsertionTinyLfu B)
    unfolding reset
    touch_item s key = do
      kept ← maybe_contains bitset hash s.gatekeeper key
      elim kept [
        | true ↦ do
          sketch ← Counting.add hash s.frequency_sketch key
          count ← estimate hash sketch key
          let s' = record s { frequency_sketch = sketch }
          ok (if ltb sketch.cardinality count then reset s' else s')
        | false ↦ do
          gatekeeper ← Bloom.add bitset hash s.gatekeeper key
          ok (record s { gatekeeper = gatekeeper })
      ]

    pub on_cache_miss : InsertionTinyLfu B → K → Outcome (InsertionTinyLfu B)
    unfolding touch_item
    on_cache_miss s key = touch_item s key

    module _ {V : Type 0} where
      pub on_cache_hit : InsertionTinyLfu B → K → Item V → Outcome (InsertionTinyLfu B)
      unfolding touch_item
      on_cache_hit s key item = touch_item s key

module _ {K V B : Type 0} (bitset : BitSet B) (hash : K → ℕ) where
  -- The state of a new policy is an argument: `construct` makes it, if no assertion fails.
  abbrev pub tiny_lfu_policy : InsertionTinyLfu B → InsertionPolicy K V (InsertionTinyLfu B)
  tiny_lfu_policy initial = record {
    initial = initial;
    clear = clear bitset;
    should_add = should_add bitset hash;
    should_replace = should_replace bitset hash;
    handlers = record {
      on_insert = none;
      on_update = none;
      on_cache_hit = some (on_cache_hit bitset hash);
      on_cache_miss = some (on_cache_miss bitset hash);
      on_evict = none;
    };
  }
