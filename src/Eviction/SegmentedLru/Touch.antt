-- ===== src/Eviction/SegmentedLru/Touch.antt =====
-- What a hit does to the two lists of keys: the key goes to the front of the protected segment, and
-- a key that this pushes out goes to the front of the probation segment.
use mathlib.Core.List.{erase, lookup}
use cachemere.Common.{
  ℕ, ◌≤◌, ◌≡◌, refl, sym, ◌∙◌, ap, true, false, ◌&&◌, ◌||◌, some, ◌∷◌, arith, ok, is_some, length,
  contains, Option-cases, Bool-cases, inl, inr, lookup-erase_key, erase_absent, ℕ_discrete,
}
use cachemere.Common.Maps.{HashMap, HashMapLaws}
use cachemere.LinkedList.{is_begin, deref, erase_node}
use cachemere.LinkedList.Keys.{contains-node_keys, begin_lem, deref-node_of}
use cachemere.LinkedList.Index.{splice_self_lem, length-entries}
use cachemere.Eviction.SegmentedLru.{EvictionSegmentedLru, touch, assert_sizes}
use cachemere.Eviction.SegmentedLru.Moves.{
  IsSegmented, probation_keys, protected_keys, move_to_protected_lem,
}

module _ {K N : Type 0} {dec : Discrete K} {h : HashMap K ℕ N} (laws : HashMapLaws dec h) where
  open h use {find}

  -- The segments are well formed, and the protected one is within its size.
  pub record Inv (s : EvictionSegmentedLru K N) : Type 0 where
    pub segmented : IsSegmented laws s
    pub bounded : length s.protected_list ≤ s.protected_segment_size

  pub assert_sizes_lem :
      (s : EvictionSegmentedLru K N) → IsSegmented laws s → assert_sizes h s ≡ ok tt
  unfolding assert_sizes
  assert_sizes_lem s v = ground (
    arith,
    length-entries laws s.probation_list s.probation_nodes s.next_node v.probation,
    length-entries laws s.protected_list s.protected_nodes s.next_node v.protected,
  )

  moved_by_id :
      (s : EvictionSegmentedLru K N) (k : K) (node : ℕ)
      → IsSegmented laws s
      → find s.protected_nodes k ≡ some node
      → (i : ℕ)
      → (is_some (deref i s.probation_list)
          && is_some (deref i ((node, k) ∷ erase_node node s.protected_list)))
        ≡ false
  unfolding lookup
  moved_by_id s k node v here i = ground (
    arith,
    v.apart.by_id i,
    lookup-erase_key ℕ_discrete node i s.protected_list v.protected.ids,
    deref-node_of dec k node s.protected_list v.protected.ids (sym (v.protected.linked k) ∙ here),
  )

  -- A key of the cache moves to the front of the protected segment, from where it stands.
  pub touch_lem :
      (s : EvictionSegmentedLru K N) (k : K)
      → IsSegmented laws s
      → (contains dec k (probation_keys laws s) || contains dec k (protected_keys laws s)) ≡ true
      → (s' : EvictionSegmentedLru K N) × (touch h s k ≡ ok s')
        × IsSegmented laws s'
        × (protected_keys laws s' ≡ k ∷ erase dec (protected_keys laws s) k)
        × (probation_keys laws s' ≡ erase dec (probation_keys laws s) k)
        × (s'.protected_segment_size ≡ s.protected_segment_size)
  unfolding touch
  touch_lem s k v held = elim (Option-cases (find s.protected_nodes k)) [
    | inr (node, here) ↦
        let elsewhere : erase dec (probation_keys laws s) k ≡ probation_keys laws s =
          erase_absent dec k (probation_keys laws s) (
            ground (
              arith,
              contains-node_keys dec k s.probation_list,
              v.probation.linked k,
              v.apart.by_key k,
            )) in
        elim (Bool-cases (is_begin node s.protected_list)) [
          | inl front ↦ (
            s,
            rw (here, front, touch),
            v,
            begin_lem dec k node s.protected_list v.protected.ids
                (sym (v.protected.linked k) ∙ here) front,
            sym elsewhere,
            refl,
          )
          | inr behind ↦
              let (spliced, x, left) =
                splice_self_lem laws s.protected_list s.protected_nodes s.next_node node k
                  v.protected here in
              (
                record s { protected_list = (node, k) ∷ erase_node node s.protected_list },
                rw (here, behind, spliced, touch),
                record {
                  probation = v.probation;
                  protected = x;
                  apart = record { by_id = moved_by_id s k node v here; by_key = v.apart.by_key };
                },
                ap (◌∷◌ k) left,
                sym elsewhere,
                refl,
              )
        ]
    | inl missing ↦ elim (Option-cases (find s.probation_nodes k)) [
      | inl nowhere ↦ absurd (
          ground (
            arith,
            contains-node_keys dec k s.probation_list,
            contains-node_keys dec k s.protected_list,
            v.probation.linked k,
            v.protected.linked k,
          ))
      | inr (node, here) ↦
          let (s', run, v', left, front, size) = move_to_protected_lem laws s k node v here in
          (
            s',
            rw (missing, run, touch),
            v',
            front
                ∙ ap (◌∷◌ k) (
                    sym (
                      erase_absent dec k (protected_keys laws s) (
                        ground (
                          arith,
                          contains-node_keys dec k s.protected_list,
                          v.protected.linked k,
                        )))),
            left,
            size,
          )
    ]
  ]
