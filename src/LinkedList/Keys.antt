-- ===== src/LinkedList/Keys.antt =====
-- The keys of a list of nodes, and the nodes of its keys.
use mathlib.Core.List.{lookup, erase}
use cachemere.Common.{
  ℕ, suc, ◌≡◌, refl, ap, ite, true, none, some, Option, List, [], ◌∷◌, arith, is_some, contains,
  Distinct, DistinctKeys, ℕ_discrete, length, total, map,
}
use cachemere.LinkedList.{Nodes, node_keys, deref, erase_node, is_begin, back}

module _ {K : Type 0} (dec : Discrete K) where
  -- The first node with the key.
  unfoldable pub node_of : K → Nodes K → Option ℕ
  node_of k [] = none
  node_of k (n ∷ l) = ite (dec k n.1) (some n.0) (node_of k l)

  pub contains-node_keys :
      (k : K) (l : Nodes K) → contains dec k (node_keys l) ≡ is_some (node_of k l)
  unfolding node_of
  contains-node_keys k [] = refl
  contains-node_keys k (n ∷ l) = ground (arith, contains-node_keys k l)

  pub deref-node_of :
      (k : K) (i : ℕ) (l : Nodes K)
      → DistinctKeys ℕ_discrete l
      → node_of k l ≡ some i
      → deref i l ≡ some k
  unfolding node_of lookup
  deref-node_of k i [] d h = cc
  deref-node_of k i (n ∷ l) d h = ground (arith, deref-node_of k i l d.1, d.0)

  -- To erase the node of a key is to erase the key.
  pub erase_node-node_keys :
      (k : K) (i : ℕ) (l : Nodes K)
      → DistinctKeys ℕ_discrete l
      → node_of k l ≡ some i
      → node_keys (erase_node i l) ≡ erase dec (node_keys l) k
  unfolding node_of lookup
  erase_node-node_keys k i [] d h = cc
  erase_node-node_keys k i (n ∷ l) d h =
      ground (arith, erase_node-node_keys k i l d.1, deref-node_of k i l d.1)

  pub node_of-erase_node :
      (k j : K) (i : ℕ) (l : Nodes K)
      → DistinctKeys ℕ_discrete l
      → Distinct dec (node_keys l)
      → node_of k l ≡ some i
      → node_of j (erase_node i l) ≡ ite (dec k j) none (node_of j l)
  unfolding node_of lookup
  node_of-erase_node k j i [] d e h = cc
  node_of-erase_node k j i (n ∷ l) d e h = ground (
    arith,
    node_of-erase_node k j i l d.1 e.1,
    deref-node_of k i l d.1,
    contains-node_keys k l,
    contains-node_keys n.1 l,
    e.0,
  )

module _ {K : Type 0} (dec : Discrete K) where
  -- If the node of `k` is the first one, `k` is the first key.
  pub begin_lem :
      (k : K) (node : ℕ) (l : Nodes K)
      → DistinctKeys ℕ_discrete l
      → node_of dec k l ≡ some node
      → is_begin node l ≡ true
      → node_keys l ≡ k ∷ erase dec (node_keys l) k
  unfolding is_begin node_of lookup
  begin_lem k node [] d h front = cc
  begin_lem k node (n ∷ l) d h front = ground (arith, deref-node_of dec k node l d.1, d.0)

  pub back-node_of :
      (k : K) (node : ℕ) (l : Nodes K)
      → Distinct dec (node_keys l)
      → back l ≡ some (node, k)
      → node_of dec k l ≡ some node
  unfolding back node_of
  back-node_of k node [] e h = cc
  back-node_of k node (n ∷ []) e h = ground arith
  back-node_of k node (n ∷ m ∷ l) e h =
      ground (arith, back-node_of k node (m ∷ l) e.1 h, e.0, contains-node_keys dec k (m ∷ l))

pub count_length : {A : Type 0} (xs : List A) → length xs ≡ total (λ x. 1) xs
count_length [] = refl
count_length (x ∷ xs) = omega (arith, count_length xs)

-- A node read as the entry of its key.
pub turn : {K : Type 0} → ℕ × K → K × ℕ
turn n = (n.1, n.0)

pub length-map : {A B : Type 0} (f : A → B) (xs : List A) → length (map f xs) ≡ length xs
length-map f [] = refl
length-map f (x ∷ xs) = ap suc (length-map f xs)

module _ {K : Type 0} (dec : Discrete K) where
  pub lookup-turn : (k : K) (l : Nodes K) → lookup dec k (map turn l) ≡ node_of dec k l
  unfolding node_of lookup turn
  lookup-turn k [] = refl
  lookup-turn k (n ∷ l) = ground (arith, lookup-turn k l)

  pub turn-DistinctKeys : (l : Nodes K) → Distinct dec (node_keys l) → DistinctKeys dec (map turn l)
  unfolding turn
  turn-DistinctKeys [] d = tt
  turn-DistinctKeys (n ∷ l) d = (
    ground (arith, contains-node_keys dec n.1 l, lookup-turn n.1 l, d.0),
    turn-DistinctKeys l d.1,
  )
