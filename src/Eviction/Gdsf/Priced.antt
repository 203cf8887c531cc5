-- ===== src/Eviction/Gdsf/Priced.antt =====
-- The laws that the cache relies on, for a GDSF policy with costs that are small enough.
use mathlib.Core.List.{erase}
use cachemere.Common.{ℕ, ◌≡◌, refl, ◌∙◌, ap, List, ◌∷◌, arith, ok, contains, contains-erase}
use cachemere.Common.Maps.{HashMap, HashMapLaws}
use cachemere.Double.{Double}
use cachemere.Item.{Item}
use cachemere.Policy.Laws.{EvictionLaws, RemovalLaws}
use cachemere.Filter.Counting.{CountingBloomFilter}
use cachemere.Filter.Counting.Totals.{IsUsable}
use cachemere.Eviction.Gdsf.{
  EvictionGdsf, victims, initial, clear, on_update, on_evict, gdsf_policy,
}
use cachemere.Eviction.Gdsf.Laws.{victims-IsDistinct, initial-Inv, clear-Inv}
use cachemere.Eviction.Gdsf.Timely.{IsPriced, Timely, insert-Timely, hit-Timely, evict-Timely}

module _ {K V W N : Type 0} {dec : Discrete K} {h : HashMap K ℕ N} (laws : HashMapLaws dec h)
    (d : Double W) (hash : K → ℕ) (measure_cost : K → Item V → W) {measure_key : K → ℕ}
    {IsEarly : ℕ → Type 0} (priced : IsPriced d measure_cost measure_key IsEarly) where
  abbrev pub TimelyState : EvictionGdsf K W N → Type 0
  TimelyState = Timely laws d hash measure_cost priced

  evict_first :
      (s : EvictionGdsf K W N) (k : K) (ks : List K) (item : Item V)
      → TimelyState s
      → victims s ≡ k ∷ ks
      → (s' : EvictionGdsf K W N) × (on_evict d h hash measure_cost s k item ≡ ok s')
        × TimelyState s'
        × (victims s' ≡ ks)
  evict_first s k ks item v e =
      let (s', run, v', left) =
        evict-Timely laws d hash measure_cost priced s k item v (rw e (ground arith)) in
      (s', run, v', left ∙ ap (λ l. erase dec l k) e ∙ ground arith)

  pub gdsf-EvictionLaws :
      (sketch : CountingBloomFilter)
      → IsUsable sketch
      → EvictionLaws {V = V} dec (gdsf_policy d h hash measure_cost sketch) TimelyState measure_key
  unfolding initial clear on_update victims
  gdsf-EvictionLaws sketch usable = record {
    initial-Inv = record {
      inv = initial-Inv laws sketch usable;
      clock = priced.starts;
      entries = tt;
    };
    victims-initial = refl;
    clear-Inv = λ s v. record { inv = clear-Inv laws s v.inv; clock = v.clock; entries = tt };
    victims-clear = λ s. refl;
    victims-Distinct = λ s v. victims-IsDistinct laws s v.inv;
    on_insert_lem = insert-Timely laws d hash measure_cost priced;
    on_update_lem = λ s k old new v sizes there.
        hit-Timely laws d hash measure_cost priced s k new v sizes there;
    on_cache_hit_lem = hit-Timely laws d hash measure_cost priced;
    on_cache_miss_lem = λ s k v. (s, refl, v, λ j. refl);
    on_evict_lem = evict_first;
  }

  pub gdsf-RemovalLaws :
      (sketch : CountingBloomFilter)
      → RemovalLaws {V = V} dec (gdsf_policy d h hash measure_cost sketch) TimelyState
  gdsf-RemovalLaws sketch = record {
    on_evict_any_lem = λ s k item v there.
        let (s', run, v', left) = evict-Timely laws d hash measure_cost priced s k item v there in
        (
          s',
          run,
          v',
          λ j.
              ap (contains dec j) left
              ∙ contains-erase dec j k (victims s) (victims-IsDistinct laws s v.inv),
        );
  }
