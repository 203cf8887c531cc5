-- ===== src/Eviction/Gdsf/Reachable.antt =====
-- The states that a GDSF policy can reach by the events of a cache, and what holds in all of them.
use cachemere.Common.{
  ℕ, ◌≡◌, ◌<◌, sym, ◌∙◌, true, false, arith, inl, inr, Outcome, ok, ok_inj, contains, subst,
}
use cachemere.Common.Maps.{HashMap, HashMapLaws}
use cachemere.Double.{Double, IsOrdered}
use cachemere.Item.{Item}
use cachemere.Filter.Counting.{CountingBloomFilter}
use cachemere.Filter.Counting.Totals.{IsUsable}
use cachemere.Eviction.Gdsf.{
  EvictionGdsf, victims, h_coefficient, initial, clear, on_insert, on_cache_hit, on_update,
  on_evict,
}
use cachemere.Eviction.Gdsf.Priorities.Ranking.{IsRanked, emplace-IsRanked, erase-IsRanked}
use cachemere.Eviction.Gdsf.Placing.{Inv, Places}
use cachemere.Eviction.Gdsf.Handlers.{without_entry, gdsf_insert_lem, gdsf_hit_lem, gdsf_evict_lem}
use cachemere.Eviction.Gdsf.Laws.{initial-Inv, clear-Inv}

module _ {K V W N : Type 0} (dec : Discrete K) (h : HashMap K ℕ N) (d : Double W) (hash : K → ℕ)
    (measure_cost : K → Item V → W) where
  -- One event, as the cache reports it: insertions of new keys, and the rest for held ones. Items
  -- have a size.
  pub data Step (s s' : EvictionGdsf K W N) : Type 0 where
    inserts :
        (k : K) (item : Item V)
        → contains dec k (victims s) ≡ false
        → 0 < item.total_size
        → on_insert d h hash measure_cost s k item ≡ ok s'
        → Step s s'
    hits :
        (k : K) (item : Item V)
        → contains dec k (victims s) ≡ true
        → 0 < item.total_size
        → on_cache_hit d h hash measure_cost s k item ≡ ok s'
        → Step s s'
    updates :
        (k : K) (old new : Item V)
        → contains dec k (victims s) ≡ true
        → 0 < new.total_size
        → on_update d h hash measure_cost s k old new ≡ ok s'
        → Step s s'
    evicts :
        (k : K) (item : Item V)
        → contains dec k (victims s) ≡ true
        → on_evict d h hash measure_cost s k item ≡ ok s'
        → Step s s'
    clears : s' ≡ clear h s → Step s s'

  pub data Reach (sketch : CountingBloomFilter) : EvictionGdsf K W N → Type 0 where
    start : Reach sketch (initial h sketch)
    next : {s s' : EvictionGdsf K W N} → Reach sketch s → Step s s' → Reach sketch s'

module _ {K V W N : Type 0} {dec : Discrete K} {h : HashMap K ℕ N} (laws : HashMapLaws dec h)
    (d : Double W) (hash : K → ℕ) (measure_cost : K → Item V → W) {IsNumber : W → Type 0}
    (ordered : IsOrdered d IsNumber)
    (numbers : (clock count : ℕ) (k : K) (item : Item V)
      → 0 < item.total_size
      → IsNumber (h_coefficient d measure_cost clock count k item)) where
  -- The set and the map agree, and the set is in ascending order of the coefficients.
  pub record IsOrderly (s : EvictionGdsf K W N) : Type 0 where
    pub inv : Inv laws s
    pub ranked : IsRanked ordered s.priority_set

  Places-IsOrderly :
      (s s' : EvictionGdsf K W N) (k : K) (item : Item V) (outcome : Outcome (EvictionGdsf K W N))
      → IsRanked ordered s.priority_set
      → 0 < item.total_size
      → Places laws d hash measure_cost s k item outcome
      → outcome ≡ ok s'
      → IsOrderly s'
  Places-IsOrderly s s' k item outcome ranked size
        (sketch, count, added, counted, inr (nan, failed)) e =
      absurd (ground (arith, failed, e))
  Places-IsOrderly s s' k item outcome ranked size
        (sketch, count, added, counted, inl (number, (t, run, placed))) e =
      subst IsOrderly (ok_inj t s' (sym run ∙ e)) (record {
        inv = placed.inv;
        ranked = subst (IsRanked ordered) (sym placed.entries) (
            emplace-IsRanked ordered (s.next_node, _) s.priority_set
              (numbers s.clock count k item size) ranked);
      })

  hit-IsOrderly :
      (s s' : EvictionGdsf K W N) (k : K) (item : Item V)
      → IsOrderly s
      → contains dec k (victims s) ≡ true
      → 0 < item.total_size
      → on_cache_hit d h hash measure_cost s k item ≡ ok s'
      → IsOrderly s'
  hit-IsOrderly s s' k item v there size e =
      let (it, here, places) = gdsf_hit_lem laws d hash measure_cost s k item v.inv there in
      Places-IsOrderly (without_entry laws d hash measure_cost s it) s' k item
        (on_cache_hit d h hash measure_cost s k item)
        (erase-IsRanked ordered it s.priority_set v.ranked) size places e

  Step-IsOrderly :
      (s s' : EvictionGdsf K W N) → IsOrderly s → Step dec h d hash measure_cost s s' → IsOrderly s'
  unfolding on_update clear
  Step-IsOrderly s s' v (inserts k item new size e) =
      Places-IsOrderly s s' k item (on_insert d h hash measure_cost s k item) v.ranked size
        (gdsf_insert_lem laws d hash measure_cost s k item v.inv new) e
  Step-IsOrderly s s' v (hits k item there size e) = hit-IsOrderly s s' k item v there size e
  Step-IsOrderly s s' v (updates k old new there size e) = hit-IsOrderly s s' k new v there size e
  Step-IsOrderly s s' v (evicts k item there e) =
      let (it, entry, here, at_it, outcome) =
        gdsf_evict_lem laws d hash measure_cost s k item v.inv there in
      elim outcome [
        | inr (beyond, failed) ↦ absurd (ground (arith, failed, e))
        | inl (fits, (t, run, v', left, entries, sketch, clock)) ↦
            subst IsOrderly (ok_inj t s' (sym run ∙ e)) (record {
              inv = v';
              ranked =
                  subst (IsRanked ordered) (sym entries)
                    (erase-IsRanked ordered it s.priority_set v.ranked);
            })
      ]
  Step-IsOrderly s s' v (clears e) =
      subst IsOrderly (sym e) (record { inv = clear-Inv laws s v.inv; ranked = tt })

  -- In every state that a GDSF policy reaches from a new one, with a sketch of a positive size, by
  -- insertions of new keys and by hits, updates and evictions of held ones, in any order, and by
  -- `clear`, with items of a positive size, the priority set and the map from the keys to its nodes
  -- agree, the sketch has a positive size, and the entries are in the order of their coefficients.
  -- The `<` of doubles is assumed to order numbers, and the coefficient of an item of a positive
  -- size to be one.
  pub gdsf_reach-IsOrderly :
      (sketch : CountingBloomFilter) {s : EvictionGdsf K W N}
      → IsUsable sketch
      → Reach dec h d hash measure_cost sketch s
      → IsOrderly s
  unfolding initial
  gdsf_reach-IsOrderly sketch usable start = record {
    inv = initial-Inv laws sketch usable;
    ranked = tt;
  }
  gdsf_reach-IsOrderly sketch usable (next {s} {s'} reach step) =
      Step-IsOrderly s s' (gdsf_reach-IsOrderly sketch usable reach) step
