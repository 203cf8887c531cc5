-- ===== src/LinkedList/Index.antt =====
-- A list of keys with a hash map from each key to its node: `m_keys` and `m_nodes` of the eviction
-- policies, and what keeps the two in agreement.
use mathlib.Core.List.{lookup, erase}
use cachemere.Common.{
  ℕ, ◌≤◌, ◌<◌, ◌≡◌, refl, sym, ◌∙◌, none, some, [], ◌∷◌, arith, ok, Distinct, DistinctKeys,
  lookup-erase_key, erase_key-DistinctKeys, contains-erase, erase-Distinct, ℕ_discrete, length, map,
}
use cachemere.Common.Maps.{HashMap, HashMapLaws}
use cachemere.Common.Maps.Totals.{total-ext}
use cachemere.LinkedList.{Nodes, node_keys, deref, erase_node, splice_self}
use cachemere.LinkedList.Keys.{
  node_of, contains-node_keys, deref-node_of, erase_node-node_keys, node_of-erase_node,
  count_length, turn, length-map, lookup-turn, turn-DistinctKeys,
}

module _ {K N : Type 0} {dec : Discrete K} {h : HashMap K ℕ N} (laws : HashMapLaws dec h) where
  open h use {find, insert_or_assign, erase as erase_entry}

  -- Nodes and keys are distinct, the map holds the node of each key, and `next` on are unused.
  pub record IsIndexed (l : Nodes K) (nodes : N) (next : ℕ) : Type 0 where
    pub ids : DistinctKeys ℕ_discrete l
    pub keys : Distinct dec (node_keys l)
    pub linked : (k : K) → find nodes k ≡ node_of dec k l
    pub fresh : (i : ℕ) → next ≤ i → deref i l ≡ none

  pub empty-IsIndexed : (next : ℕ) → IsIndexed [] h.empty next
  unfolding node_of lookup
  empty-IsIndexed next = record {
    ids = tt;
    keys = tt;
    linked = λ k. rw (laws.find-entries h.empty k, laws.entries-empty) refl;
    fresh = λ i le. refl;
  }

  -- A node that the list does not have, put in front under a key that it does not have.
  pub front-IsIndexed :
      (l : Nodes K) (nodes : N) (next : ℕ) (i : ℕ) (k : K)
      → IsIndexed l nodes next
      → find nodes k ≡ none
      → deref i l ≡ none
      → i < next
      → IsIndexed ((i, k) ∷ l) (insert_or_assign nodes k i) next
  unfolding node_of lookup
  front-IsIndexed l nodes next i k x missing unused below = record {
    ids = (rw unused, x.ids);
    keys = (ground (arith, contains-node_keys dec k l, x.linked k), x.keys);
    linked = λ j. ground (arith, laws.find-insert_or_assign nodes k j i, x.linked j);
    fresh = λ j le. ground (arith, x.fresh j le);
  }

  pub later-IsIndexed :
      (l : Nodes K) (nodes : N) (next later : ℕ)
      → IsIndexed l nodes next
      → next ≤ later
      → IsIndexed l nodes later
  later-IsIndexed l nodes next later x le = record {
    ids = x.ids;
    keys = x.keys;
    linked = x.linked;
    fresh = λ i h. x.fresh i (omega arith);
  }

  -- A key taken out, with its node.
  pub erase-IsIndexed :
      (l : Nodes K) (nodes : N) (next : ℕ) (i : ℕ) (k : K)
      → IsIndexed l nodes next
      → find nodes k ≡ some i
      → IsIndexed (erase_node i l) (erase_entry nodes k) next
  erase-IsIndexed l nodes next i k x here =
      let there : node_of dec k l ≡ some i = sym (x.linked k) ∙ here in
      record {
        ids = erase_key-DistinctKeys ℕ_discrete i l x.ids;
        keys =
            rw (erase_node-node_keys dec k i l x.ids there)
              (erase-Distinct dec k (node_keys l) x.keys);
        linked = λ j. ground (
          arith,
          laws.find-erase nodes k j,
          x.linked j,
          node_of-erase_node dec k j i l x.ids x.keys there,
        );
        fresh = λ j le. ground (arith, lookup-erase_key ℕ_discrete i j l x.ids, x.fresh j le);
      }

  -- The node of a key moved to the front.
  pub splice_self_lem :
      (l : Nodes K) (nodes : N) (next : ℕ) (i : ℕ) (k : K)
      → IsIndexed l nodes next
      → find nodes k ≡ some i
      → (splice_self l i ≡ ok ((i, k) ∷ erase_node i l))
        × IsIndexed ((i, k) ∷ erase_node i l) nodes next
        × (node_keys (erase_node i l) ≡ mathlib.Core.List.erase dec (node_keys l) k)
  unfolding splice_self node_of lookup
  splice_self_lem l nodes next i k x here =
      let there : node_of dec k l ≡ some i = sym (x.linked k) ∙ here in
      let at_i : deref i l ≡ some k = deref-node_of dec k i l x.ids there in
      let keys_left = erase_node-node_keys dec k i l x.ids there in
      (
        rw (at_i, splice_self),
        record {
          ids = (
            ground (arith, lookup-erase_key ℕ_discrete i i l x.ids),
            erase_key-DistinctKeys ℕ_discrete i l x.ids,
          );
          keys = rw keys_left (
            ground (arith, contains-erase dec k k (node_keys l) x.keys),
            erase-Distinct dec k (node_keys l) x.keys,
          );
          linked =
              λ j. ground (arith, x.linked j, node_of-erase_node dec k j i l x.ids x.keys there);
          fresh = λ j le.
              ground
                (arith, lookup-erase_key ℕ_discrete i j l x.ids, x.fresh j le, x.fresh i, at_i);
        },
        keys_left,
      )

  -- The map and the list have the same size.
  pub length-entries :
      (l : Nodes K) (nodes : N) (next : ℕ)
      → IsIndexed l nodes next
      → length (h.entries nodes) ≡ length l
  length-entries l nodes next x =
      count_length (h.entries nodes)
      ∙ total-ext dec (λ e. 1) (h.entries nodes) (map turn l) (laws.entries-DistinctKeys nodes)
          (turn-DistinctKeys dec l x.keys)
          (λ k. sym (laws.find-entries nodes k) ∙ x.linked k ∙ sym (lookup-turn dec k l))
      ∙ sym (count_length (map turn l))
      ∙ length-map turn l
