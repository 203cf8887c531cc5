-- ===== src/Eviction/SegmentedLru/Evict.antt =====
-- Any key can be evicted from the segments, and the others keep their order.
use mathlib.Core.List.{erase, lookup}
use cachemere.Common.{
  ℕ, ◌≡◌, sym, ◌∙◌, ap, true, false, none, some, ◌++◌, reverse, arith, ok, length, contains,
  Option-cases, inl, inr, lookup-erase_key, ℕ_discrete, length-erase-le,
}
use cachemere.Common.Maps.{HashMap, HashMapLaws}
use cachemere.Item.{Item}
use cachemere.LinkedList.{erase_node, erase_iterator}
use cachemere.LinkedList.Keys.{contains-node_keys, deref-node_of, erase_node-node_keys}
use cachemere.LinkedList.Index.{erase-IsIndexed}
use cachemere.Eviction.SegmentedLru.{EvictionSegmentedLru, victims, on_evict}
use cachemere.Eviction.SegmentedLru.Victims.{
  victims_lem, victims_contains, held_is_nonempty, erase-first, erase-second,
}
use cachemere.Eviction.SegmentedLru.Moves.{probation_keys, protected_keys}
use cachemere.Eviction.SegmentedLru.Touch.{Inv}
use cachemere.Eviction.SegmentedLru.Hit.{length-node_keys}

module _ {K V N : Type 0} {dec : Discrete K} {h : HashMap K ℕ N} (laws : HashMapLaws dec h) where
  open h use {find}

  evict_probation :
      (s : EvictionSegmentedLru K N) (k : K) (node : ℕ) (item : Item V)
      → Inv laws s
      → find s.probation_nodes k ≡ some node
      → (s' : EvictionSegmentedLru K N) × (on_evict h s k item ≡ ok s')
        × Inv laws s'
        × (victims s' ≡ erase dec (victims s) k)
  unfolding on_evict erase_iterator lookup
  evict_probation s k node item v here =
      let x = v.segmented.probation in
      let s' = record s {
        probation_list = erase_node node s.probation_list;
        probation_nodes = h.erase s.probation_nodes k;
      } in
      let there : contains dec k (probation_keys laws s) ≡ true =
        ground (arith, contains-node_keys dec k s.probation_list, x.linked k) in
      let left = erase_node-node_keys dec k node s.probation_list x.ids (sym (x.linked k) ∙ here) in
      let at_node = deref-node_of dec k node s.probation_list x.ids (sym (x.linked k) ∙ here) in
      (
        s',
        ground (arith, held_is_nonempty dec k s.probation_list there, here, at_node),
        record {
          segmented = record {
            probation =
                erase-IsIndexed laws s.probation_list s.probation_nodes s.next_node node k x here;
            protected = v.segmented.protected;
            apart = record {
              by_id = λ i. ground (
                arith,
                v.segmented.apart.by_id i,
                lookup-erase_key ℕ_discrete node i s.probation_list x.ids,
              );
              by_key = λ j.
                  ground (arith, v.segmented.apart.by_key j, laws.find-erase s.probation_nodes k j);
            };
          };
          bounded = v.bounded;
        },
        rw (victims_lem laws s', victims_lem laws s)
            (ap (λ l. reverse l ++ reverse (protected_keys laws s)) left
              ∙ erase-first dec k (probation_keys laws s) (protected_keys laws s) x.keys there),
      )

  evict_protected :
      (s : EvictionSegmentedLru K N) (k : K) (node : ℕ) (item : Item V)
      → Inv laws s
      → find s.probation_nodes k ≡ none
      → find s.protected_nodes k ≡ some node
      → (s' : EvictionSegmentedLru K N) × (on_evict h s k item ≡ ok s')
        × Inv laws s'
        × (victims s' ≡ erase dec (victims s) k)
  unfolding on_evict erase_iterator lookup
  evict_protected s k node item v missing here =
      let x = v.segmented.protected in
      let s' = record s {
        protected_list = erase_node node s.protected_list;
        protected_nodes = h.erase s.protected_nodes k;
      } in
      let there : contains dec k (protected_keys laws s) ≡ true =
        ground (arith, contains-node_keys dec k s.protected_list, x.linked k) in
      let left = erase_node-node_keys dec k node s.protected_list x.ids (sym (x.linked k) ∙ here) in
      let at_node = deref-node_of dec k node s.protected_list x.ids (sym (x.linked k) ∙ here) in
      let absent : contains dec k (probation_keys laws s) ≡ false =
        ground (arith, contains-node_keys dec k s.probation_list, v.segmented.probation.linked k) in
      (
        s',
        ground (arith, held_is_nonempty dec k s.protected_list there, missing, here, at_node),
        record {
          segmented = record {
            probation = v.segmented.probation;
            protected =
                erase-IsIndexed laws s.protected_list s.protected_nodes s.next_node node k x here;
            apart = record {
              by_id = λ i. ground (
                arith,
                v.segmented.apart.by_id i,
                lookup-erase_key ℕ_discrete node i s.protected_list x.ids,
              );
              by_key = λ j.
                  ground (arith, v.segmented.apart.by_key j, laws.find-erase s.protected_nodes k j);
            };
          };
          bounded = omega (
            arith,
            length-node_keys laws (erase_node node s.protected_list),
            length-node_keys laws s.protected_list,
            ap length left,
            length-erase-le dec k (protected_keys laws s),
            v.bounded,
          );
        },
        rw (victims_lem laws s', victims_lem laws s)
            (ap (λ l. reverse (probation_keys laws s) ++ reverse l) left
              ∙ erase-second dec k (probation_keys laws s) (protected_keys laws s) x.keys absent),
      )

  -- `on_evict` of the segmented policy, in a well-formed state and on any key that it holds, fails
  -- no assertion: the key leaves the victims, whose order stays, and the state stays well formed.
  pub segmented_evict_lem :
      (s : EvictionSegmentedLru K N) (k : K) (item : Item V)
      → Inv laws s
      → contains dec k (victims s) ≡ true
      → (s' : EvictionSegmentedLru K N) × (on_evict h s k item ≡ ok s')
        × Inv laws s'
        × (victims s' ≡ erase dec (victims s) k)
  segmented_evict_lem s k item v held = elim (Option-cases (find s.probation_nodes k)) [
    | inr (node, here) ↦ evict_probation s k node item v here
    | inl missing ↦ elim (Option-cases (find s.protected_nodes k)) [
      | inr (node, here) ↦ evict_protected s k node item v missing here
      | inl nowhere ↦ absurd (
          ground (
            arith,
            victims_contains laws s k,
            contains-node_keys dec k s.probation_list,
            contains-node_keys dec k s.protected_list,
            v.segmented.probation.linked k,
            v.segmented.protected.linked k,
          ))
    ]
  ]
