-- ===== src/Eviction/SegmentedLru/Laws.antt =====
-- The segmented policy meets the laws that the cache relies on.
use mathlib.Core.List.{erase, lookup}
use cachemere.Common.{
  ℕ, suc, ◌≡◌, refl, sym, ◌∙◌, ap, ite, true, false, none, List, [], ◌∷◌, arith, ok, contains,
  contains-erase,
}
use cachemere.Common.Maps.{HashMap, HashMapLaws}
use cachemere.Item.{Item}
use cachemere.Policy.Laws.{EvictionLaws, RemovalLaws}
use cachemere.LinkedList.Keys.{contains-node_keys}
use cachemere.LinkedList.Index.{empty-IsIndexed, front-IsIndexed, later-IsIndexed}
use cachemere.Eviction.SegmentedLru.{
  EvictionSegmentedLru, victims, initial, clear, emplace, on_insert, on_evict, on_cache_hit,
  on_update, segmented_lru_policy,
}
use cachemere.Eviction.SegmentedLru.Victims.{
  victims_lem, victims_contains, victims-IsDistinct, promote-contains,
}
use cachemere.Eviction.SegmentedLru.Moves.{probation_keys, protected_keys}
use cachemere.Eviction.SegmentedLru.Touch.{Inv}
use cachemere.Eviction.SegmentedLru.Hit.{segmented_hit_lem}
use cachemere.Eviction.SegmentedLru.Evict.{segmented_evict_lem}

module _ {K N : Type 0} {dec : Discrete K} {h : HashMap K ℕ N} (laws : HashMapLaws dec h) where
  initial_lem :
      (s : EvictionSegmentedLru K N)
      → s.probation_list ≡ []
      → s.protected_list ≡ []
      → s.probation_nodes ≡ h.empty
      → s.protected_nodes ≡ h.empty
      → Inv laws s
  unfolding lookup
  initial_lem s a b c d = record {
    segmented = record {
      probation = rw (a, c) (empty-IsIndexed laws s.next_node);
      protected = rw (b, d) (empty-IsIndexed laws s.next_node);
      apart =
          rw (a, b, c, d)
            (record {
              by_id = λ i. refl;
              by_key = λ k. rw (laws.find-entries h.empty k, laws.entries-empty) refl;
            });
    };
    bounded = rw b (omega arith);
  }

  insert_contains :
      (s s' : EvictionSegmentedLru K N) (k j : K)
      → probation_keys laws s' ≡ k ∷ probation_keys laws s
      → protected_keys laws s' ≡ protected_keys laws s
      → contains dec j (victims s') ≡ ite (dec k j) true (contains dec j (victims s))
  insert_contains s s' k j e e' =
      rw (victims_contains laws s' j, e, e', victims_contains laws s j) (ground arith)

module _ {K V N : Type 0} {dec : Discrete K} {h : HashMap K ℕ N} (laws : HashMapLaws dec h) where
  open h use {find}

  -- `on_insert` of the segmented policy, in a well-formed state and on a key that it does not hold,
  -- fails no assertion: the key goes to the front of the probation segment, the protected segment
  -- stays, and the state stays well formed.
  pub segmented_insert_lem :
      (s : EvictionSegmentedLru K N) (k : K) (item : Item V)
      → Inv laws s
      → contains dec k (victims s) ≡ false
      → (s' : EvictionSegmentedLru K N) × (on_insert h s k item ≡ ok s')
        × Inv laws s'
        × (probation_keys laws s' ≡ k ∷ probation_keys laws s)
        × (protected_keys laws s' ≡ protected_keys laws s)
  unfolding on_insert emplace lookup
  segmented_insert_lem s k item v new =
      let keys = victims_contains laws s k in
      let missing : find s.probation_nodes k ≡ none =
        ground (arith, contains-node_keys dec k s.probation_list, v.segmented.probation.linked k) in
      let elsewhere : find s.protected_nodes k ≡ none =
        ground (arith, contains-node_keys dec k s.protected_list, v.segmented.protected.linked k) in
      (
        record s {
          probation_list = (s.next_node, k) ∷ s.probation_list;
          probation_nodes = h.insert_or_assign s.probation_nodes k s.next_node;
          next_node = suc s.next_node;
        },
        rw (missing, emplace, on_insert),
        record {
          segmented = record {
            probation =
                front-IsIndexed laws s.probation_list s.probation_nodes (suc s.next_node)
                  s.next_node k
                  (later-IsIndexed laws s.probation_list s.probation_nodes s.next_node
                    (suc s.next_node) v.segmented.probation (omega arith))
                  missing (v.segmented.probation.fresh s.next_node (omega arith)) (omega arith);
            protected =
                later-IsIndexed laws s.protected_list s.protected_nodes s.next_node
                  (suc s.next_node) v.segmented.protected (omega arith);
            apart = record {
              by_id = λ i.
                  ground
                    (arith, v.segmented.apart.by_id i, v.segmented.protected.fresh s.next_node);
              by_key = λ j. ground (
                arith,
                v.segmented.apart.by_key j,
                laws.find-insert_or_assign s.probation_nodes k j s.next_node,
              );
            };
          };
          bounded = v.bounded;
        },
        refl,
        refl,
      )

  hit_lem :
      (s : EvictionSegmentedLru K N) (k : K) (item : Item V)
      → Inv laws s
      → contains dec k (victims s) ≡ true
      → (s' : EvictionSegmentedLru K N) × (on_cache_hit h s k item ≡ ok s')
        × Inv laws s'
        × ((j : K) → contains dec j (victims s') ≡ contains dec j (victims s))
  hit_lem s k item v held =
      let (s', run, v', e, size) =
        segmented_hit_lem laws s k item v (sym (victims_contains laws s k) ∙ held) in
      (s', run, v', λ j. promote-contains laws s s' k j v.segmented held e)

  evict_first :
      (s : EvictionSegmentedLru K N) (k : K) (ks : List K) (item : Item V)
      → Inv laws s
      → victims s ≡ k ∷ ks
      → (s' : EvictionSegmentedLru K N) × (on_evict h s k item ≡ ok s')
        × Inv laws s'
        × (victims s' ≡ ks)
  evict_first s k ks item v e =
      let (s', run, v', left) = segmented_evict_lem laws s k item v (rw e (ground arith)) in
      (s', run, v', left ∙ ap (λ l. erase dec l k) e ∙ ground arith)

  -- The segmented policy meets the laws of the cache, whatever the size of its protected segment.
  pub segmented_lru-EvictionLaws :
      {measure_key : K → ℕ} (size : ℕ)
      → EvictionLaws {V = V} dec (segmented_lru_policy h size) (Inv laws) measure_key
  unfolding initial clear on_update
  segmented_lru-EvictionLaws size = record {
    initial-Inv = initial_lem laws (initial h size) refl refl refl refl;
    victims-initial = victims_lem laws (initial h size);
    clear-Inv = λ s v. initial_lem laws (clear h s) refl refl refl refl;
    victims-clear = λ s. victims_lem laws (clear h s);
    victims-Distinct = λ s v. victims-IsDistinct laws s v.segmented;
    on_insert_lem = λ s k item v sizes new.
        let (s', run, v', e, e') = segmented_insert_lem s k item v new in
        (s', run, v', λ j. insert_contains laws s s' k j e e');
    on_update_lem = λ s k old new v sizes held. hit_lem s k new v held;
    on_cache_hit_lem = λ s k item v sizes held. hit_lem s k item v held;
    on_cache_miss_lem = λ s k v. (s, refl, v, λ j. refl);
    on_evict_lem = evict_first;
  }

  -- It can also evict any key that it holds.
  pub segmented_lru-RemovalLaws :
      (size : ℕ) → RemovalLaws {V = V} dec (segmented_lru_policy h size) (Inv laws)
  segmented_lru-RemovalLaws size = record {
    on_evict_any_lem = λ s k item v held.
        let (s', run, v', left) = segmented_evict_lem laws s k item v held in
        (
          s',
          run,
          v',
          λ j.
              ap (contains dec j) left
              ∙ contains-erase dec j k (victims s) (victims-IsDistinct laws s v.segmented),
        );
  }
