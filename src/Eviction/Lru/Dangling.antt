-- ===== src/Eviction/Lru/Dangling.antt =====
-- What `on_evict` does to a key that is not the first victim. The cache evicts such keys in `remove`
-- and `retain`.
use cachemere.Common.{
  ℕ, ◌≡◌, ◌≢◌, ◌∙◌, true, none, some, arith, ok, contains, contains-reverse, if_neg,
}
use cachemere.Common.Maps.{HashMap, HashMapLaws}
use cachemere.Common.Maps.Totals.{entries-is_nonempty}
use cachemere.Item.{Item}
use cachemere.LinkedList.{back}
use cachemere.LinkedList.Keys.{contains-node_keys}
use cachemere.Eviction.Lru.{EvictionLru, on_evict, victims}
use cachemere.Eviction.Lru.Laws.{Inv, recency, back-is_nonempty}

module _ {K V N : Type 0} {dec : Discrete K} {h : HashMap K ℕ N} (laws : HashMapLaws dec h) where
  -- `on_evict` of the LRU policy on a key that is held, but is not the least recently used one,
  -- fails no assertion, takes the key out of `m_nodes` and leaves it in `m_keys`: it is still a
  -- victim, with no node of its own, and the state is no longer well formed.
  pub on_evict-dangling :
      (s : EvictionLru K N) (k : K) (node : ℕ) (n : ℕ × K) (item : Item V)
      → Inv laws s
      → h.find s.nodes k ≡ some node
      → back s.keys ≡ some n
      → n.1 ≢ k
      → (s' : EvictionLru K N) × (on_evict dec h s k item ≡ ok s')
        × (contains dec k (victims s') ≡ true)
        × (h.find s'.nodes k ≡ none)
        × (¬ Inv laws s')
  unfolding on_evict victims
  on_evict-dangling s k node n item v here at_back other =
      let there : contains dec k (recency laws s) ≡ true =
        ground (arith, contains-node_keys dec k s.keys, v.linked k) in
      let gone : h.find (h.erase s.nodes k) k ≡ none =
        ground (arith, laws.find-erase s.nodes k k) in
      (
        record s { nodes = h.erase s.nodes k },
        rw (
          entries-is_nonempty laws s.nodes k node here,
          back-is_nonempty s.keys n at_back,
          at_back,
          if_neg _ other,
          here,
        ),
        contains-reverse dec k (recency laws s) ∙ there,
        gone,
        λ v'. ground (arith, v'.linked k, contains-node_keys dec k s.keys),
      )
