-- ===== src/Eviction/Gdsf/Placing.antt =====
-- How a GDSF policy places a key in its set, and what makes its state well formed.
use mathlib.Core.List.{erase}
use cachemere.Common.{
  ℕ, suc, Outcome, fault, undefined_behaviour, ◌⊎◌, false, Bool-cases, ◌≡◌, refl, sym, ◌∙◌, ap, ite,
  true, none, some, [], ◌∷◌, map, ok, is_some, contains, erase_key, ℕ_discrete, inl, inr,
}
use cachemere.Common.Maps.{HashMap, HashMapLaws}
use cachemere.Double.{Double}
use cachemere.Item.{Item}
use cachemere.Filter.Counting.{CountingBloomFilter, add, estimate}
use cachemere.Filter.Counting.Totals.{IsUsable, estimate_total, add_total}
use cachemere.LinkedList.{node_keys}
use cachemere.LinkedList.Keys.{contains-node_keys, erase_node-node_keys}
use cachemere.Eviction.Gdsf.{EvictionGdsf, victims, h_coefficient, get_h_coefficient, on_insert}
use cachemere.Eviction.Gdsf.Priorities.{
  PrioritySet, PriorityEntry, key_nodes, emplace, emplace_number, erase-key_nodes,
}
use cachemere.Eviction.Gdsf.Indexed.{IsTracked, emplace-IsTracked}

module _ {K W N : Type 0} {dec : Discrete K} {h : HashMap K ℕ N} (laws : HashMapLaws dec h) where
  -- The sketch can be asked, and the map leads to the nodes of the set.
  pub record Inv (s : EvictionGdsf K W N) : Type 0 where
    pub sketch : IsUsable s.frequency_sketch
    pub tracked : IsTracked laws s.priority_set s.iterator_map s.next_node

module _ {K W N : Type 0} where
  pub victims-node_keys :
      (s : EvictionGdsf K W N) → victims s ≡ node_keys (key_nodes s.priority_set)
  unfolding victims
  victims-node_keys s = of_set s.priority_set
    where
      of_set : (set : PrioritySet K W) → map (λ n. n.1.key) set ≡ node_keys (key_nodes set)
      of_set [] = refl
      of_set (n ∷ set) = ap (◌∷◌ n.1.key) (of_set set)

module _ {K W N : Type 0} {dec : Discrete K} {h : HashMap K ℕ N} (laws : HashMapLaws dec h) where
  open h use {find}

  pub held :
      (s : EvictionGdsf K W N) (k : K)
      → Inv laws s
      → contains dec k (victims s) ≡ is_some (find s.iterator_map k)
  held s k v =
      ap (contains dec k) (victims-node_keys s)
      ∙ contains-node_keys dec k (key_nodes s.priority_set)
      ∙ ap is_some (sym (v.tracked.linked k))

  pub victims-erase :
      (s s' : EvictionGdsf K W N) (k : K) (it : ℕ)
      → Inv laws s
      → find s.iterator_map k ≡ some it
      → s'.priority_set ≡ erase_key ℕ_discrete it s.priority_set
      → victims s' ≡ erase dec (victims s) k
  victims-erase s s' k it v here e =
      victims-node_keys s'
      ∙ ap (λ set. node_keys (key_nodes set)) e
      ∙ ap node_keys (erase-key_nodes it s.priority_set)
      ∙ erase_node-node_keys dec k it (key_nodes s.priority_set) v.tracked.ids
          (sym (v.tracked.linked k) ∙ here)
      ∙ sym (ap (λ l. erase dec l k) (victims-node_keys s))

module _ {K V W N : Type 0} {dec : Discrete K} {h : HashMap K ℕ N} (laws : HashMapLaws dec h)
    (d : Double W) (hash : K → ℕ) (measure_cost : K → Item V → W) where
  open h use {find, insert_or_assign}

  -- `k` has been placed in the set that `s` has, with a coefficient of the estimate `count` in the
  -- new `sketch`.
  pub record Placed (s : EvictionGdsf K W N) (k : K) (item : Item V) (sketch : CountingBloomFilter)
      (count : ℕ) (s' : EvictionGdsf K W N) : Type 0 where
    pub inv : Inv laws s'
    pub sketch_is : s'.frequency_sketch ≡ sketch
    pub entries :
        s'.priority_set
        ≡ emplace d
            (
              s.next_node,
              record { key = k; h_coefficient = h_coefficient d measure_cost s.clock count k item },
            )
            s.priority_set
    pub clock_same : s'.clock ≡ s.clock

  -- What placing `k` comes to: the key is counted in the sketch, and then estimated. The outcome is
  -- undefined if the coefficient is a NaN.
  abbrev pub Places : EvictionGdsf K W N → K → Item V → Outcome (EvictionGdsf K W N) → Type 0
  Places s k item outcome =
      (sketch : CountingBloomFilter) × (count : ℕ) × (add hash s.frequency_sketch k ≡ ok sketch)
      × (estimate hash sketch k ≡ ok count)
      × (((d.is_nan (h_coefficient d measure_cost s.clock count k item) ≡ false)
            × ((s' : EvictionGdsf K W N) × (outcome ≡ ok s') × Placed s k item sketch count s'))
          ⊎ ((d.is_nan (h_coefficient d measure_cost s.clock count k item) ≡ true)
              × (outcome ≡ fault undefined_behaviour)))

  pub place :
      (s : EvictionGdsf K W N) (nodes : N) (k : K) (item : Item V)
      → IsUsable s.frequency_sketch
      → IsTracked laws s.priority_set nodes s.next_node
      → find nodes k ≡ none
      → ((j : K)
          → find (insert_or_assign s.iterator_map k s.next_node) j
            ≡ ite (dec k j) (some s.next_node) (find nodes j))
      → Places s k item (on_insert d h hash measure_cost s k item)
  unfolding on_insert get_h_coefficient emplace_number
  place s nodes k item usable tracked missing after =
      let (sketch, added, usable') = add_total hash s.frequency_sketch k usable in
      let (count, counted) = estimate_total hash sketch k usable' in
      let coefficient = h_coefficient d measure_cost s.clock count k item in
      let nodes' = insert_or_assign s.iterator_map k s.next_node in
      let node : ℕ × PriorityEntry K W =
        (s.next_node, record { key = k; h_coefficient = coefficient }) in
      (
        sketch,
        count,
        added,
        counted,
        elim (Bool-cases (d.is_nan coefficient)) [
          | inl nan ↦
              let run : emplace_number d node s.priority_set ≡ fault undefined_behaviour =
                rw (nan, emplace_number) refl in
              inr (nan, rw (added, counted, run) refl)
          | inr number ↦
              let run : emplace_number d node s.priority_set ≡ ok (emplace d node s.priority_set) =
                rw (number, emplace_number) refl in
              inl (
                number,
                (
                  record {
                    frequency_sketch = sketch;
                    priority_set = emplace d node s.priority_set;
                    iterator_map = nodes';
                    clock = s.clock;
                    next_node = suc s.next_node;
                  },
                  rw (added, counted, run) refl,
                  record {
                    inv = record {
                      sketch = usable';
                      tracked =
                          emplace-IsTracked laws d s.priority_set nodes nodes' s.next_node k
                            coefficient tracked missing after;
                    };
                    sketch_is = refl;
                    entries = refl;
                    clock_same = refl;
                  },
                ),
              )
        ],
      )
