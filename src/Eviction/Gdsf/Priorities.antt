-- ===== src/Eviction/Gdsf/Priorities.antt =====
-- `std::multiset` of the entries of a GDSF policy, in the order of their coefficients. A node has an
-- identity, which an iterator holds.
pub mod Ranking
use mathlib.Core.List.{lookup}
use cachemere.Common.{
  ℕ, ◌≡◌, refl, Bool, true, false, Option, none, some, List, [], ◌∷◌, map, arith, ite, contains,
  Distinct, DistinctKeys, erase_key, ℕ_discrete, Outcome, ok, fault, undefined_behaviour, is_some,
  if◌then◌else◌, ◌||◌,
}
use cachemere.Double.{Double, IsOrdered}
use cachemere.LinkedList.{Nodes, node_keys, deref, erase_node}
use cachemere.LinkedList.Keys.{node_of, contains-node_keys}

pub record PriorityEntry (K W : Type 0) : Type 0 where
  pub key : K
  pub h_coefficient : W

abbrev pub PrioritySet : Type 0 → Type 0 → Type 0
PrioritySet K W = List (ℕ × PriorityEntry K W)

module _ {K W : Type 0} where
  -- The nodes with their keys only.
  abbrev pub key_nodes : PrioritySet K W → Nodes K
  key_nodes = map (λ n. (n.0, n.1.key))

  -- `*it`
  abbrev pub entry_at : ℕ → PrioritySet K W → Option (PriorityEntry K W)
  entry_at = lookup ℕ_discrete

  -- `m_priority_set.erase(it)`
  pub erase_at : PrioritySet K W → ℕ → Outcome (PrioritySet K W)
  erase_at set it = elim (entry_at it set) [
    | none ↦ fault undefined_behaviour
    | some entry ↦ ok (erase_key ℕ_discrete it set)
  ]

  pub erase_at_lem :
      (it : ℕ) (set : PrioritySet K W) (entry : PriorityEntry K W)
      → entry_at it set ≡ some entry
      → erase_at set it ≡ ok (erase_key ℕ_discrete it set)
  unfolding erase_at
  erase_at_lem it set entry e = rw (e, erase_at) refl

  pub erase-key_nodes :
      (it : ℕ) (set : PrioritySet K W)
      → key_nodes (erase_key ℕ_discrete it set) ≡ erase_node it (key_nodes set)
  erase-key_nodes it [] = refl
  erase-key_nodes it (n ∷ set) = ground (arith, erase-key_nodes it set)

  pub deref-key_nodes :
      (it : ℕ) (set : PrioritySet K W)
      → is_some (deref it (key_nodes set)) ≡ is_some (entry_at it set)
  unfolding lookup
  deref-key_nodes it [] = refl
  deref-key_nodes it (n ∷ set) = ground (arith, deref-key_nodes it set)

module _ {K W : Type 0} (d : Double W) where
  -- `m_priority_set.emplace(...)`: behind the entries whose coefficient is not greater.
  unfoldable pub emplace : ℕ × PriorityEntry K W → PrioritySet K W → PrioritySet K W
  emplace node [] = node ∷ []
  emplace node (n ∷ set) = elim (d.less node.1.h_coefficient n.1.h_coefficient) [
    | true ↦ node ∷ n ∷ set
    | false ↦ n ∷ emplace node set
  ]

  -- The order of the set is undefined for a NaN.
  unfoldable pub emplace_number :
      ℕ × PriorityEntry K W → PrioritySet K W → Outcome (PrioritySet K W)
  unfolding emplace
  emplace_number node set = elim (d.is_nan node.1.h_coefficient) [
    | true ↦ fault undefined_behaviour
    | false ↦ ok (emplace node set)
  ]

  pub deref-emplace :
      (node : ℕ × PriorityEntry K W) (set : PrioritySet K W) (i : ℕ)
      → deref node.0 (key_nodes set) ≡ none
      → deref i (key_nodes (emplace node set))
        ≡ ite (ℕ_discrete i node.0) (some node.1.key) (deref i (key_nodes set))
  unfolding emplace lookup
  deref-emplace node [] i absent = refl
  deref-emplace node (n ∷ set) i absent = ground (arith, deref-emplace node set i)

  pub emplace-DistinctKeys :
      (node : ℕ × PriorityEntry K W) (set : PrioritySet K W)
      → DistinctKeys ℕ_discrete (key_nodes set)
      → deref node.0 (key_nodes set) ≡ none
      → DistinctKeys ℕ_discrete (key_nodes (emplace node set))
  unfolding emplace lookup
  emplace-DistinctKeys node [] distinct absent = (refl, tt)
  emplace-DistinctKeys node (n ∷ set) distinct absent =
      ground (arith, emplace-DistinctKeys node set distinct.1, deref-emplace node set n.0)

  module _ (dec : Discrete K) where
    pub node_of-emplace :
        (node : ℕ × PriorityEntry K W) (set : PrioritySet K W) (k : K)
        → node_of dec node.1.key (key_nodes set) ≡ none
        → node_of dec k (key_nodes (emplace node set))
          ≡ ite (dec k node.1.key) (some node.0) (node_of dec k (key_nodes set))
    unfolding emplace node_of
    node_of-emplace node [] k absent = refl
    node_of-emplace node (n ∷ set) k absent = ground (arith, node_of-emplace node set k)

    pub emplace-Distinct :
        (node : ℕ × PriorityEntry K W) (set : PrioritySet K W)
        → Distinct dec (node_keys (key_nodes set))
        → node_of dec node.1.key (key_nodes set) ≡ none
        → Distinct dec (node_keys (key_nodes (emplace node set)))
    unfolding emplace node_of
    emplace-Distinct node [] distinct absent = (refl, tt)
    emplace-Distinct node (n ∷ set) distinct absent = ground (
      arith,
      emplace-Distinct node set distinct.1,
      node_of-emplace node set n.1.key,
      contains-node_keys dec n.1.key (key_nodes (emplace node set)),
      contains-node_keys dec n.1.key (key_nodes set),
      contains-node_keys dec node.1.key (key_nodes set),
    )

    pub contains-emplace :
        (node : ℕ × PriorityEntry K W) (set : PrioritySet K W) (k : K)
        → contains dec k (node_keys (key_nodes (emplace node set)))
          ≡ ite (dec node.1.key k) true (contains dec k (node_keys (key_nodes set)))
    unfolding emplace
    contains-emplace node [] k = ground arith
    contains-emplace node (n ∷ set) k = ground (arith, contains-emplace node set k)
