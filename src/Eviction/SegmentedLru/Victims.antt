-- ===== src/Eviction/SegmentedLru/Victims.antt =====
-- The order in which the segmented policy evicts, and that a hit drops no victim.
use mathlib.Core.List.{erase}
use cachemere.Common.{
  ℕ, suc, ok, ◌+◌, ◌≡◌, refl, sym, ◌∙◌, ap, true, false, ◌||◌, List, [], ◌∷◌, ◌++◌, reverse, arith,
  is_nonempty, length, contains, Distinct, Option-cases, inl, inr, length-reverse, contains-reverse,
  contains-append, reverse-Distinct, append-Distinct, contains-erase, erase-append, erase-reverse,
}
use cachemere.Common.Maps.{HashMap, HashMapLaws}
use cachemere.LinkedList.{Nodes, node_keys, back, contains-pop_back}
use cachemere.LinkedList.Keys.{contains-node_keys}
use cachemere.Eviction.SegmentedLru.{EvictionSegmentedLru, iterate, visited, victims}
use cachemere.Eviction.SegmentedLru.Iterator.{walk-make_iterator}
use cachemere.Eviction.SegmentedLru.Moves.{IsSegmented, probation_keys, protected_keys}
use cachemere.Eviction.SegmentedLru.Hit.{
  Segments, segments, promote, limit_protected, length-node_keys,
}

module _ {K N : Type 0} {dec : Discrete K} {h : HashMap K ℕ N} (laws : HashMapLaws dec h) where
  open h use {find}

  -- In any state of the segmented policy, a loop from `victim_begin` to `victim_end` comes to its
  -- end, after one round for each key, and dereferences no iterator past the end of a segment; the
  -- keys that it goes over are those on probation and then the protected ones, both from the least
  -- recently used key on.
  pub iterate_lem :
      (s : EvictionSegmentedLru K N)
      → iterate s ≡ ok (reverse (probation_keys laws s) ++ reverse (protected_keys laws s))
  unfolding iterate
  iterate_lem s =
      walk-make_iterator (suc (length s.probation_list + length s.protected_list))
        (reverse (probation_keys laws s)) (reverse (protected_keys laws s))
        (omega (
          arith,
          length-reverse (probation_keys laws s),
          length-reverse (protected_keys laws s),
          length-node_keys laws s.probation_list,
          length-node_keys laws s.protected_list,
        ))

  pub victims_lem :
      (s : EvictionSegmentedLru K N)
      → victims s ≡ reverse (probation_keys laws s) ++ reverse (protected_keys laws s)
  unfolding victims
  victims_lem s = ap visited (iterate_lem s)

  pub victims_contains :
      (s : EvictionSegmentedLru K N) (k : K)
      → contains dec k (victims s)
        ≡ (contains dec k (probation_keys laws s) || contains dec k (protected_keys laws s))
  victims_contains s k =
      rw
        (
          victims_lem s,
          contains-append,
          contains-reverse dec k (probation_keys laws s),
          contains-reverse dec k (protected_keys laws s),
        )
        refl

  apart_keys :
      (s : EvictionSegmentedLru K N) (k : K)
      → IsSegmented laws s
      → contains dec k (probation_keys laws s) ≡ true
      → contains dec k (protected_keys laws s) ≡ false
  apart_keys s k v e = ground (
    arith,
    contains-node_keys dec k s.probation_list,
    contains-node_keys dec k s.protected_list,
    v.probation.linked k,
    v.protected.linked k,
    v.apart.by_key k,
  )

  pub victims-IsDistinct :
      (s : EvictionSegmentedLru K N) → IsSegmented laws s → Distinct dec (victims s)
  victims-IsDistinct s v = rw (victims_lem s) (
      append-Distinct dec (reverse (probation_keys laws s)) (reverse (protected_keys laws s))
        (reverse-Distinct dec (probation_keys laws s) v.probation.keys)
        (reverse-Distinct dec (protected_keys laws s) v.protected.keys)
        (λ k e.
          contains-reverse dec k (protected_keys laws s)
          ∙ apart_keys s k v (sym (contains-reverse dec k (probation_keys laws s)) ∙ e)))

  -- A key pushed out of the protected segment is still held.
  limit_protected-contains :
      (size : ℕ) (s : Segments K) (j : K)
      → (contains dec j (limit_protected size s).probation
          || contains dec j (limit_protected size s).protected)
        ≡ (contains dec j s.probation || contains dec j s.protected)
  limit_protected-contains size s j = elim (Option-cases (back s.protected)) [
    | inl nothing ↦ ground arith
    | inr (k, last) ↦ ground (arith, contains-pop_back dec j s.protected k last)
  ]

  pub promote-contains :
      (s s' : EvictionSegmentedLru K N) (k j : K)
      → IsSegmented laws s
      → contains dec k (victims s) ≡ true
      → segments laws s' ≡ promote dec s.protected_segment_size k (segments laws s)
      → contains dec j (victims s') ≡ contains dec j (victims s)
  promote-contains s s' k j v held e =
      let moved =
        limit_protected-contains s.protected_segment_size
          (record {
            probation = erase dec (probation_keys laws s) k;
            protected = k ∷ erase dec (protected_keys laws s) k;
          })
          j in
      victims_contains s' j
      ∙ ap (λ x. contains dec j x.probation || contains dec j x.protected) e
      ∙ moved
      ∙ ground (
        arith,
        contains-erase dec j k (probation_keys laws s) v.probation.keys,
        contains-erase dec j k (protected_keys laws s) v.protected.keys,
        victims_contains s k,
        held,
      )
      ∙ sym (victims_contains s j)

module _ {K : Type 0} (dec : Discrete K) where
  pub held_is_nonempty :
      (k : K) (l : Nodes K) → contains dec k (node_keys l) ≡ true → is_nonempty l ≡ true
  held_is_nonempty k [] e = cc
  held_is_nonempty k (n ∷ l) e = refl

  -- A key erased from the one list or the other, behind it.
  pub erase-first :
      (k : K) (p q : List K)
      → Distinct dec p
      → contains dec k p ≡ true
      → reverse (erase dec p k) ++ reverse q ≡ erase dec (reverse p ++ reverse q) k
  erase-first k p q d e = ground (
    arith,
    erase-append dec k (reverse p) (reverse q),
    contains-reverse dec k p,
    erase-reverse dec k p d,
  )

  pub erase-second :
      (k : K) (p q : List K)
      → Distinct dec q
      → contains dec k p ≡ false
      → reverse p ++ reverse (erase dec q k) ≡ erase dec (reverse p ++ reverse q) k
  erase-second k p q d e = ground (
    arith,
    erase-append dec k (reverse p) (reverse q),
    contains-reverse dec k p,
    erase-reverse dec k q d,
  )
