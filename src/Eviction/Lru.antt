-- ===== src/Eviction/Lru.antt =====
-- include/cachemere/policy/eviction_lru.{h,hpp}: the least recently used key goes first. The list
-- `m_keys` has the most recently used key in front; `m_nodes` has its iterators. A reference to a
-- key is the key itself, and `next_node` is the identity that the next list node gets.
pub mod Laws
pub mod Dangling
use cachemere.Common.{
  ℕ, suc, ◌≡◌, Bool, true, false, not, none, some, List, [], ◌∷◌, reverse, arith, Outcome, ok,
  fault, assertion_failed, undefined_behaviour, ◌>>=◌, ◌>>◌, assert, is_some, is_nonempty, ite,
}
use cachemere.Common.Maps.{HashMap}
use cachemere.Item.{Item}
use cachemere.Policy.{EvictionPolicy}
use cachemere.LinkedList.{Nodes, node_keys, back, pop_back, is_begin, splice_self}

pub record EvictionLru (K N : Type 0) : Type 0 where
  pub keys : Nodes K
  pub nodes : N
  pub next_node : ℕ

module _ {K N : Type 0} where
  -- The iterator walks backwards over the list.
  unfoldable pub victims : EvictionLru K N → List K
  victims s = reverse (node_keys s.keys)

module _ {K N : Type 0} (h : HashMap K ℕ N) where
  pub initial : EvictionLru K N
  initial = record { keys = []; nodes = h.empty; next_node = 0 }

  pub clear : EvictionLru K N → EvictionLru K N
  clear s = record s { keys = []; nodes = h.empty }

module _ {K V N : Type 0} (dec : Discrete K) (h : HashMap K ℕ N) where
  open h use {find, insert_or_assign, erase, entries}

  pub on_insert : EvictionLru K N → K → Item V → Outcome (EvictionLru K N)
  on_insert s k item = do
    assert (not (is_some (find s.nodes k)))
    ok (record {
      keys = (s.next_node, k) ∷ s.keys;
      nodes = insert_or_assign s.nodes k s.next_node;
      next_node = suc s.next_node;
    })

  pub on_cache_hit : EvictionLru K N → K → Item V → Outcome (EvictionLru K N)
  on_cache_hit s k item = elim (find s.nodes k) [
    | none ↦ fault assertion_failed
    | some node ↦ elim (is_begin node s.keys) [
      | true ↦ ok s
      | false ↦ do keys ← splice_self s.keys node; ok (record s { keys = keys })
    ]
  ]

  pub on_update : EvictionLru K N → K → Item V → Item V → Outcome (EvictionLru K N)
  unfolding on_cache_hit
  on_update s k old new = on_cache_hit s k new

  -- Only the node of the key at the back is taken out of the list.
  pub on_evict : EvictionLru K N → K → Item V → Outcome (EvictionLru K N)
  on_evict s k item = do
    assert (is_nonempty (entries s.nodes))
    assert (is_nonempty s.keys)
    elim (back s.keys) [
      | none ↦ fault undefined_behaviour
      | some n ↦
          ite (dec n.1 k) (ok (record s { nodes = erase s.nodes k; keys = pop_back s.keys }))
            (do assert (is_some (find s.nodes k)); ok (record s { nodes = erase s.nodes k }))
    ]

  abbrev pub lru_policy : EvictionPolicy K V (EvictionLru K N)
  lru_policy = record {
    initial = initial h;
    clear = clear h;
    victims = victims;
    handlers = record {
      on_insert = some on_insert;
      on_update = some on_update;
      on_cache_hit = some on_cache_hit;
      on_cache_miss = none;
      on_evict = some on_evict;
    };
  }
