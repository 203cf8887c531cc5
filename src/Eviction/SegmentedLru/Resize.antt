-- ===== src/Eviction/SegmentedLru/Resize.antt =====
-- About `set_protected_segment_size`, and the next hit after it.
use mathlib.Core.List.{erase}
use native.Mathlib.Decide.{dec_le}
use cachemere.Common.{
  ℕ, suc, ◌≤◌, ◌<◌, ◌≡◌, refl, sym, ◌∙◌, ap, true, false, ◌||◌, ◌⊎◌, inl, inr, some, arith, ok,
  fault, assertion_failed, length, contains, Option-cases, ltb, ◌==◌,
}
use cachemere.Common.Maps.{HashMap, HashMapLaws}
use cachemere.Item.{Item}
use cachemere.LinkedList.{back, back-none, back-map, length-pop_back}
use cachemere.Eviction.SegmentedLru.{
  EvictionSegmentedLru, set_protected_segment_size, victims, demote_overflow, on_cache_hit,
}
use cachemere.Eviction.SegmentedLru.Moves.{
  IsSegmented, probation_keys, protected_keys, pop_to_probation_lem,
}
use cachemere.Eviction.SegmentedLru.Touch.{Inv, touch_lem, assert_sizes_lem}
use cachemere.Eviction.SegmentedLru.Hit.{segments, promote, length-node_keys, hit_within}

module _ {K N : Type 0} {dec : Discrete K} {h : HashMap K ℕ N} (laws : HashMapLaws dec h) where
  resized-IsSegmented :
      (s : EvictionSegmentedLru K N) (size : ℕ)
      → IsSegmented laws s
      → IsSegmented laws (set_protected_segment_size s size)
  unfolding set_protected_segment_size
  resized-IsSegmented s size v = record {
    probation = v.probation;
    protected = v.protected;
    apart = v.apart;
  }

  pub set_protected_segment_size_lem :
      (s : EvictionSegmentedLru K N) (size : ℕ)
      → Inv laws s
      → length s.protected_list ≤ size
      → Inv laws (set_protected_segment_size s size)
        × (victims (set_protected_segment_size s size) ≡ victims s)
  unfolding set_protected_segment_size victims
  set_protected_segment_size_lem s size v fits =
      (record { segmented = resized-IsSegmented s size v.segmented; bounded = fits }, refl)

  -- Where the protected segment is over its size by two keys or more.
  demote_overflow_fails :
      (s : EvictionSegmentedLru K N) (fuel : ℕ)
      → IsSegmented laws s
      → suc s.protected_segment_size < length s.protected_list
      → demote_overflow h (suc fuel) s ≡ fault assertion_failed
  unfolding demote_overflow
  demote_overflow_fails s fuel v over =
      let more : ltb s.protected_segment_size (length s.protected_list) ≡ true = ground arith in
      elim (Option-cases (back s.protected_list)) [
        | inl nothing ↦ absurd (ground (arith, ap length (back-none s.protected_list nothing)))
        | inr ((node, k), at_back) ↦
            let (s', run, v', pushed, popped, size) =
              pop_to_probation_lem laws s k node v at_back in
            let last : back (protected_keys laws s) ≡ some k =
              back-map (λ n. n.1) s.protected_list ∙ rw at_back in
            let wrong : (length s'.protected_list == s'.protected_segment_size) ≡ false = ground (
              arith,
              length-node_keys laws s'.protected_list,
              length-node_keys laws s.protected_list,
              length-pop_back (protected_keys laws s) k last,
              ap length popped,
              size,
            ) in
            rw (more, run, wrong, demote_overflow) refl
      ]

  hit_beyond :
      {V : Type 0} (s : EvictionSegmentedLru K N) (k : K) (item : Item V)
      → IsSegmented laws s
      → (contains dec k (probation_keys laws s) || contains dec k (protected_keys laws s)) ≡ true
      → s.protected_segment_size < length (erase dec (protected_keys laws s) k)
      → on_cache_hit h s k item ≡ fault assertion_failed
  unfolding on_cache_hit
  hit_beyond s k item v held over =
      let (mid, touched, seg, front, rest, size) = touch_lem laws s k v held in
      let full : length mid.protected_list ≡ suc (length (erase dec (protected_keys laws s) k)) =
        sym (length-node_keys laws mid.protected_list) ∙ ap length front in
      let fails =
        demote_overflow_fails mid (length mid.protected_list) seg
          (omega (arith, full, size, over)) in
      rw (assert_sizes_lem laws s v, touched, fails, on_cache_hit) refl

  -- After `set_protected_segment_size` in a well-formed state, a hit on a key that the segmented
  -- policy holds goes one of two ways. If the other protected keys are at most as many as the new
  -- size, the hit runs to its end, with the state well formed: the key goes to the front of the
  -- protected segment, and if that is then over its size, its last key goes to the front of the
  -- probation segment. If they are more, as they may be after the size was lowered, the hit fails
  -- an assertion.
  pub resized_hit_lem :
      {V : Type 0} (s : EvictionSegmentedLru K N) (size : ℕ) (k : K) (item : Item V)
      → Inv laws s
      → (contains dec k (probation_keys laws s) || contains dec k (protected_keys laws s)) ≡ true
      → ((length (erase dec (protected_keys laws s) k) ≤ size)
          × ((s' : EvictionSegmentedLru K N) × (on_cache_hit h
                  (set_protected_segment_size s size)
                  k
                  item
                ≡ ok s')
              × Inv laws s'
              × (segments laws s' ≡ promote dec size k (segments laws s))))
        ⊎ ((size < length (erase dec (protected_keys laws s) k))
            × (on_cache_hit h (set_protected_segment_size s size) k item ≡ fault assertion_failed))
  unfolding set_protected_segment_size
  resized_hit_lem s size k item v held =
      let v' = resized-IsSegmented s size v.segmented in
      elim (dec_le (length (erase dec (protected_keys laws s) k)) size) [
        | yes fits ↦
            let (s', ran, valid, result, kept) =
              hit_within laws (set_protected_segment_size s size) k item v' held fits in
            inl (fits, (s', ran, valid, result))
        | no over ↦
            let beyond : size < length (erase dec (protected_keys laws s) k) =
              omega (arith, over) in
            inr (beyond, hit_beyond (set_protected_segment_size s size) k item v' held beyond)
      ]
