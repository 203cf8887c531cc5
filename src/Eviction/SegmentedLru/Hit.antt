-- ===== src/Eviction/SegmentedLru/Hit.antt =====
-- What a hit leaves: the protected segment within its size, by one demotion at most.
use mathlib.Core.List.{erase}
use cachemere.Common.{
  ℕ, suc, ◌≤◌, ◌≡◌, refl, sym, ◌∙◌, ap, true, false, ◌||◌, none, some, Option, List, [], ◌∷◌, arith,
  ok, length, contains, Option-cases, Bool-cases, inl, inr, ltb, ◌==◌, if◌then◌else◌,
  length-erase-le,
}
use cachemere.Common.Maps.{HashMap, HashMapLaws}
use cachemere.Item.{Item}
use cachemere.LinkedList.{Nodes, node_keys, back, back-none, pop_back, back-map, length-pop_back}
use cachemere.Eviction.SegmentedLru.{EvictionSegmentedLru, demote_overflow, on_cache_hit}
use cachemere.Eviction.SegmentedLru.Moves.{
  IsSegmented, probation_keys, protected_keys, pop_to_probation_lem,
}
use cachemere.Eviction.SegmentedLru.Touch.{Inv, touch_lem, assert_sizes_lem}

-- The two segments as lists of keys, the most recently used key first.
pub record Segments (K : Type 0) : Type 0 where
  pub probation : List K
  pub protected : List K

-- The last protected key, if there is one, goes on probation.
abbrev push_out : {K : Type 0} → Option K → Segments K → Segments K
push_out none s = s
push_out (some k) s = record { probation = k ∷ s.probation; protected = pop_back s.protected }

abbrev pub limit_protected : {K : Type 0} → ℕ → Segments K → Segments K
limit_protected size s = if ltb size (length s.protected) then push_out (back s.protected) s else s

-- The specification of a hit.
abbrev pub promote : {K : Type 0} → Discrete K → ℕ → K → Segments K → Segments K
promote dec size k s =
    limit_protected size
      (record { probation = erase dec s.probation k; protected = k ∷ erase dec s.protected k })

module _ {K N : Type 0} {dec : Discrete K} {h : HashMap K ℕ N} (laws : HashMapLaws dec h) where
  abbrev pub segments : EvictionSegmentedLru K N → Segments K
  segments s = record { probation = probation_keys laws s; protected = protected_keys laws s }

  pub length-node_keys : (l : Nodes K) → length (node_keys l) ≡ length l
  length-node_keys [] = refl
  length-node_keys (n ∷ l) = ap suc (length-node_keys l)

  -- The loop takes at most one round where the segment is at most one over its size.
  demote_overflow_lem :
      (s : EvictionSegmentedLru K N) (fuel : ℕ)
      → IsSegmented laws s
      → length s.protected_list ≤ suc s.protected_segment_size
      → (s' : EvictionSegmentedLru K N) × (demote_overflow h (suc (suc fuel)) s ≡ ok s')
        × Inv laws s'
        × (segments s' ≡ limit_protected s.protected_segment_size (segments s))
        × (s'.protected_segment_size ≡ s.protected_segment_size)
  unfolding demote_overflow
  demote_overflow_lem s fuel v at_most =
      elim (Bool-cases (ltb s.protected_segment_size (length s.protected_list))) [
        | inr within ↦ (
          s,
          rw (within, demote_overflow),
          record { segmented = v; bounded = ground arith },
          ground (arith, length-node_keys s.protected_list),
          refl,
        )
        | inl over ↦ elim (Option-cases (back s.protected_list)) [
          | inl nothing ↦ absurd (ground (arith, ap length (back-none s.protected_list nothing)))
          | inr ((node, k), at_back) ↦
              let (s', run, v', pushed, popped, size) =
                pop_to_probation_lem laws s k node v at_back in
              let last : back (protected_keys laws s) ≡ some k =
                back-map (λ n. n.1) s.protected_list ∙ rw at_back in
              let full : length s'.protected_list ≡ s.protected_segment_size = ground (
                arith,
                length-node_keys s'.protected_list,
                length-node_keys s.protected_list,
                length-pop_back (protected_keys laws s) k last,
                ap length popped,
              ) in
              let exact : (length s'.protected_list == s'.protected_segment_size) ≡ true =
                ground arith in
              let enough : ltb s'.protected_segment_size (length s'.protected_list) ≡ false =
                ground arith in
              (
                s',
                rw (over, run, exact, enough, demote_overflow),
                record { segmented = v'; bounded = omega arith },
                rw (length-node_keys s.protected_list, over, last, pushed, popped),
                size,
              )
        ]
      ]

  -- The protected segment may be over its size, by one key more than the one that is hit at most.
  pub hit_within :
      {V : Type 0} (s : EvictionSegmentedLru K N) (k : K) (item : Item V)
      → IsSegmented laws s
      → (contains dec k (probation_keys laws s) || contains dec k (protected_keys laws s)) ≡ true
      → length (erase dec (protected_keys laws s) k) ≤ s.protected_segment_size
      → (s' : EvictionSegmentedLru K N) × (on_cache_hit h s k item ≡ ok s')
        × Inv laws s'
        × (segments s' ≡ promote dec s.protected_segment_size k (segments s))
        × (s'.protected_segment_size ≡ s.protected_segment_size)
  unfolding on_cache_hit
  hit_within s k item v held fits =
      let (mid, touched, seg, front, rest, size) = touch_lem laws s k v held in
      let full : length mid.protected_list ≡ suc (length (erase dec (protected_keys laws s) k)) =
        sym (length-node_keys mid.protected_list) ∙ ap length front in
      let (s', run, v', result, size') =
        demote_overflow_lem mid (length (erase dec (protected_keys laws s) k)) seg
          (omega (arith, full, size, fits)) in
      let sizes = assert_sizes_lem laws s v in
      let sizes' = assert_sizes_lem laws s' v'.segmented in
      (
        s',
        rw (sizes, touched, full, run, sizes', on_cache_hit),
        v',
        rw (result, size, front, rest),
        size' ∙ size,
      )

  -- `on_cache_hit` of the segmented policy, in a well-formed state and on a key that it holds, runs
  -- to its end and fails no assertion: the key goes to the front of the protected segment, from
  -- either one, and if that is then one over its size, its last key goes to the front of the
  -- probation segment. The state stays well formed, with the protected segment within its size.
  pub segmented_hit_lem :
      {V : Type 0} (s : EvictionSegmentedLru K N) (k : K) (item : Item V)
      → Inv laws s
      → (contains dec k (probation_keys laws s) || contains dec k (protected_keys laws s)) ≡ true
      → (s' : EvictionSegmentedLru K N) × (on_cache_hit h s k item ≡ ok s')
        × Inv laws s'
        × (segments s' ≡ promote dec s.protected_segment_size k (segments s))
        × (s'.protected_segment_size ≡ s.protected_segment_size)
  segmented_hit_lem s k item v held = hit_within s k item v.segmented held (
      omega (
        arith,
        length-node_keys s.protected_list,
        length-erase-le dec k (protected_keys laws s),
        v.bounded,
      ))
