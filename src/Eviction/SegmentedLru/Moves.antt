-- ===== src/Eviction/SegmentedLru/Moves.antt =====
-- A key moves from one segment to the other with its list node.
use mathlib.Core.List.{erase, lookup}
use cachemere.Common.{
  ℕ, ◌≡◌, refl, sym, ◌∙◌, ap, true, false, ◌&&◌, none, some, List, ◌∷◌, arith, ok, is_some,
  lookup-erase_key, ℕ_discrete,
}
use cachemere.Common.Maps.{HashMap, HashMapLaws}
use cachemere.LinkedList.{
  Nodes, node_keys, back, pop_back, deref, erase_node, splice, pop_back-map, pop_back-erase_node,
}
use cachemere.LinkedList.Keys.{deref-node_of, erase_node-node_keys, back-node_of}
use cachemere.LinkedList.Index.{IsIndexed, front-IsIndexed, erase-IsIndexed}
use cachemere.Eviction.SegmentedLru.{
  EvictionSegmentedLru, emplace, move_to_protected, pop_to_probation,
}

module _ {K N : Type 0} {dec : Discrete K} {h : HashMap K ℕ N} (laws : HashMapLaws dec h) where
  open h use {find}

  -- Two lists with their maps have no node and no key in common.
  pub record IsApart (a b : Nodes K) (m n : N) : Type 0 where
    pub by_id : (i : ℕ) → (is_some (deref i a) && is_some (deref i b)) ≡ false
    pub by_key : (k : K) → (is_some (find m k) && is_some (find n k)) ≡ false

  IsApart-sym : {a b : Nodes K} {m n : N} → IsApart a b m n → IsApart b a n m
  IsApart-sym x = record {
    by_id = λ i. ground (arith, x.by_id i);
    by_key = λ k. ground (arith, x.by_key k);
  }

  -- Moving the node of `k` to the front of the other list.
  module _ (from to : Nodes K) (m n : N) (next node : ℕ) (k : K) (x : IsIndexed laws from m next)
      (y : IsIndexed laws to n next) (apart : IsApart from to m n)
      (here : find m k ≡ some node) where
    there : deref node from ≡ some k
    there = deref-node_of dec k node from x.ids (sym (x.linked k) ∙ here)

    absent : find n k ≡ none
    absent = ground (arith, apart.by_key k)

    pub transfer-splice : splice to from node ≡ ok ((node, k) ∷ to, erase_node node from)
    unfolding splice
    transfer-splice = rw (there, splice)

    pub transfer-keys : node_keys (erase_node node from) ≡ erase dec (node_keys from) k
    transfer-keys = erase_node-node_keys dec k node from x.ids (sym (x.linked k) ∙ here)

    pub transfer-from : IsIndexed laws (erase_node node from) (h.erase m k) next
    transfer-from = erase-IsIndexed laws from m next node k x here

    pub transfer-to : IsIndexed laws ((node, k) ∷ to) (h.insert_or_assign n k node) next
    transfer-to =
        front-IsIndexed laws to n next node k y absent (ground (arith, apart.by_id node, there))
          (ground (arith, x.fresh node, there))

    pub transfer-IsApart :
        IsApart (erase_node node from) ((node, k) ∷ to) (h.erase m k) (h.insert_or_assign n k node)
    unfolding lookup
    transfer-IsApart = record {
      by_id = λ i. ground (arith, apart.by_id i, lookup-erase_key ℕ_discrete node i from x.ids);
      by_key = λ j.
          ground
            (arith, apart.by_key j, laws.find-erase m k j, laws.find-insert_or_assign n k j node);
    }

  -- The segments are well formed and apart.
  pub record IsSegmented (s : EvictionSegmentedLru K N) : Type 0 where
    pub probation : IsIndexed laws s.probation_list s.probation_nodes s.next_node
    pub protected : IsIndexed laws s.protected_list s.protected_nodes s.next_node
    pub apart : IsApart s.probation_list s.protected_list s.probation_nodes s.protected_nodes

  abbrev pub probation_keys : EvictionSegmentedLru K N → List K
  probation_keys s = node_keys s.probation_list

  abbrev pub protected_keys : EvictionSegmentedLru K N → List K
  protected_keys s = node_keys s.protected_list

  -- A key on probation moves to the front of the protected segment.
  pub move_to_protected_lem :
      (s : EvictionSegmentedLru K N) (k : K) (node : ℕ)
      → IsSegmented s
      → find s.probation_nodes k ≡ some node
      → (s' : EvictionSegmentedLru K N) × (move_to_protected h s k ≡ ok (s', true))
        × IsSegmented s'
        × (probation_keys s' ≡ erase dec (probation_keys s) k)
        × (protected_keys s' ≡ k ∷ protected_keys s)
        × (s'.protected_segment_size ≡ s.protected_segment_size)
  unfolding move_to_protected emplace
  move_to_protected_lem s k node v here =
      let from = s.probation_list in
      let to = s.protected_list in
      let m = s.probation_nodes in
      let n = s.protected_nodes in
      let missing : find n k ≡ none = ground (arith, v.apart.by_key k) in
      (
        record s {
          protected_list = (node, k) ∷ to;
          probation_list = erase_node node from;
          probation_nodes = h.erase m k;
          protected_nodes = h.insert_or_assign n k node;
        },
        rw (
          here,
          transfer-splice from to m n s.next_node node k v.probation v.protected v.apart here,
          missing,
          emplace,
          move_to_protected,
        ),
        record {
          probation =
              transfer-from from to m n s.next_node node k v.probation v.protected v.apart here;
          protected =
              transfer-to from to m n s.next_node node k v.probation v.protected v.apart here;
          apart =
              transfer-IsApart from to m n s.next_node node k v.probation v.protected v.apart here;
        },
        transfer-keys from to m n s.next_node node k v.probation v.protected v.apart here,
        refl,
        refl,
      )

  -- The last protected key moves to the front of the probation segment.
  pub pop_to_probation_lem :
      (s : EvictionSegmentedLru K N) (k : K) (node : ℕ)
      → IsSegmented s
      → back s.protected_list ≡ some (node, k)
      → (s' : EvictionSegmentedLru K N) × (pop_to_probation h s ≡ ok (s', true))
        × IsSegmented s'
        × (probation_keys s' ≡ k ∷ probation_keys s)
        × (protected_keys s' ≡ pop_back (protected_keys s))
        × (s'.protected_segment_size ≡ s.protected_segment_size)
  unfolding pop_to_probation emplace
  pop_to_probation_lem s k node v at_back =
      let from = s.protected_list in
      let to = s.probation_list in
      let m = s.protected_nodes in
      let n = s.probation_nodes in
      let here : find m k ≡ some node =
        v.protected.linked k ∙ back-node_of dec k node from v.protected.keys at_back in
      let apart = IsApart-sym v.apart in
      let missing : find n k ≡ none = ground (arith, apart.by_key k) in
      (
        record s {
          protected_list = erase_node node from;
          probation_list = (node, k) ∷ to;
          protected_nodes = h.erase m k;
          probation_nodes = h.insert_or_assign n k node;
        },
        rw (
          at_back,
          transfer-splice from to m n s.next_node node k v.protected v.probation apart here,
          missing,
          emplace,
          pop_to_probation,
        ),
        record {
          probation = transfer-to from to m n s.next_node node k v.protected v.probation apart here;
          protected =
              transfer-from from to m n s.next_node node k v.protected v.probation apart here;
          apart =
              IsApart-sym (
                transfer-IsApart from to m n s.next_node node k v.protected v.probation apart here);
        },
        refl,
        ap node_keys (sym (pop_back-erase_node from node k at_back v.protected.ids))
            ∙ sym (pop_back-map (λ n'. n'.1) from),
        refl,
      )
