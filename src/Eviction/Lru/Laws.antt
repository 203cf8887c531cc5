-- ===== src/Eviction/Lru/Laws.antt =====
-- The policy keeps its list in the order of use, and meets the laws that the cache relies on.
use mathlib.Core.List.{erase}
use cachemere.Common.{
  ℕ, suc, ◌≡◌, refl, sym, ◌∙◌, ap, true, false, none, some, List, [], ◌∷◌, arith, ok, is_some,
  is_nonempty, contains, contains-reverse, reverse-Distinct, contains-erase, Bool-cases,
  Option-cases, inl, inr,
}
use cachemere.Common.Maps.{HashMap, HashMapLaws}
use cachemere.Common.Maps.Totals.{entries-is_nonempty}
use cachemere.Item.{Item}
use cachemere.Policy.Laws.{EvictionLaws}
use cachemere.LinkedList.{
  node_keys, back, pop_back, is_begin, erase_node, reverse-eq-cons, back-map, pop_back-map,
  pop_back-erase_node,
}
use cachemere.LinkedList.Keys.{contains-node_keys, begin_lem, back-node_of}
use cachemere.LinkedList.Index.{
  IsIndexed, empty-IsIndexed, front-IsIndexed, later-IsIndexed, erase-IsIndexed, splice_self_lem,
}
use cachemere.Eviction.Lru.{
  EvictionLru, initial, clear, on_insert, on_cache_hit, on_update, on_evict, victims, lru_policy,
}

module _ {K N : Type 0} {dec : Discrete K} {h : HashMap K ℕ N} (laws : HashMapLaws dec h) where
  open h use {find}

  abbrev pub Inv : EvictionLru K N → Type 0
  Inv s = IsIndexed laws s.keys s.nodes s.next_node

  -- The keys of the cache, the most recently used one first.
  abbrev pub recency : EvictionLru K N → List K
  recency s = node_keys s.keys

  held :
      (s : EvictionLru K N) (k : K) → Inv s → contains dec k (recency s) ≡ is_some (find s.nodes k)
  held s k v = contains-node_keys dec k s.keys ∙ ap is_some (sym (v.linked k))

module _ {K N : Type 0} {dec : Discrete K} {h : HashMap K ℕ N} (laws : HashMapLaws dec h) where
  moved_contains :
      (s s' : EvictionLru K N) (k j : K)
      → Inv laws s
      → contains dec k (recency laws s) ≡ true
      → recency laws s' ≡ k ∷ erase dec (recency laws s) k
      → contains dec j (recency laws s') ≡ contains dec j (recency laws s)
  moved_contains s s' k j v there e =
      rw e (ground (arith, contains-erase dec j k (recency laws s) v.keys))

pub back-is_nonempty : {A : Type 0} (l : List A) (x : A) → back l ≡ some x → is_nonempty l ≡ true
unfolding back
back-is_nonempty [] x e = cc
back-is_nonempty (y ∷ l) x e = refl

module _ {K V N : Type 0} {dec : Discrete K} {h : HashMap K ℕ N} (laws : HashMapLaws dec h) where
  open h use {find}

  -- `on_insert` of the LRU policy, in a well-formed state and on a key that it does not hold, fails
  -- no assertion: the key goes to the front of the list, and the state stays well formed.
  pub lru_insert_lem :
      (s : EvictionLru K N) (k : K) (item : Item V)
      → Inv laws s
      → contains dec k (recency laws s) ≡ false
      → (s' : EvictionLru K N) × (on_insert dec h s k item ≡ ok s')
        × Inv laws s'
        × (recency laws s' ≡ k ∷ recency laws s)
  unfolding on_insert
  lru_insert_lem s k item v new =
      let missing : find s.nodes k ≡ none = ground (arith, held laws s k v) in
      (
        record {
          keys = (s.next_node, k) ∷ s.keys;
          nodes = h.insert_or_assign s.nodes k s.next_node;
          next_node = suc s.next_node;
        },
        rw missing,
        front-IsIndexed laws s.keys s.nodes (suc s.next_node) s.next_node k
            (later-IsIndexed laws s.keys s.nodes s.next_node (suc s.next_node) v (omega arith))
            missing (v.fresh s.next_node (omega arith)) (omega arith),
        refl,
      )

  -- `on_cache_hit` of the LRU policy, in a well-formed state and on a key that it holds, fails no
  -- assertion and moves the key to the front of the list; the others keep their order, and the
  -- state stays well formed.
  pub lru_hit_lem :
      (s : EvictionLru K N) (k : K) (item : Item V)
      → Inv laws s
      → contains dec k (recency laws s) ≡ true
      → (s' : EvictionLru K N) × (on_cache_hit dec h s k item ≡ ok s')
        × Inv laws s'
        × (recency laws s' ≡ k ∷ erase dec (recency laws s) k)
  unfolding on_cache_hit
  lru_hit_lem s k item v there = elim (Option-cases (find s.nodes k)) [
    | inl missing ↦ absurd (ground (arith, held laws s k v))
    | inr (node, here) ↦ elim (Bool-cases (is_begin node s.keys)) [
      | inl front ↦ (
        s,
        rw (here, front, on_cache_hit),
        v,
        begin_lem dec k node s.keys v.ids (sym (v.linked k) ∙ here) front,
      )
      | inr back ↦
          let (spliced, v', left) = splice_self_lem laws s.keys s.nodes s.next_node node k v here in
          (
            record s { keys = (node, k) ∷ erase_node node s.keys },
            rw (here, back, spliced, on_cache_hit),
            v',
            ap (◌∷◌ k) left,
          )
    ]
  ]

  -- `on_evict` of the LRU policy, in a well-formed state and on the first victim, fails no
  -- assertion: the other victims stay, in their order, and the state stays well formed.
  pub lru_evict_lem :
      (s : EvictionLru K N) (k : K) (ks : List K) (item : Item V)
      → Inv laws s
      → victims s ≡ k ∷ ks
      → (s' : EvictionLru K N) × (on_evict dec h s k item ≡ ok s') × Inv laws s' × (victims s' ≡ ks)
  unfolding on_evict victims
  lru_evict_lem s k ks item v front =
      let (last, left) = reverse-eq-cons (recency laws s) k ks front in
      elim (Option-cases (back s.keys)) [
        | inl nothing ↦ absurd (ground (arith, back-map (λ n. n.1) s.keys))
        | inr ((node, k'), at_back) ↦
            let same : k' ≡ k = ground (arith, back-map (λ n. n.1) s.keys) in
            let at_k : back s.keys ≡ some (node, k) = rw (at_back, same) in
            let here : find s.nodes k ≡ some node =
              v.linked k ∙ back-node_of dec k node s.keys v.keys at_k in
            let popped = pop_back-erase_node s.keys node k at_k v.ids in
            (
              record s { nodes = h.erase s.nodes k; keys = pop_back s.keys },
              ground (
                arith,
                at_k,
                entries-is_nonempty laws s.nodes k node here,
                back-is_nonempty s.keys (node, k) at_k,
              ),
              rw popped (erase-IsIndexed laws s.keys s.nodes s.next_node node k v here),
              rw (← pop_back-map) left,
            )
      ]

module _ {K N : Type 0} {dec : Discrete K} {h : HashMap K ℕ N} (laws : HashMapLaws dec h) where
  victims_contains :
      (s : EvictionLru K N) (k : K) → contains dec k (victims s) ≡ contains dec k (recency laws s)
  unfolding victims
  victims_contains s k = contains-reverse dec k (recency laws s)

module _ {K V N : Type 0} {dec : Discrete K} {h : HashMap K ℕ N} (laws : HashMapLaws dec h) where
  -- The least-recently-used policy meets the laws of the cache.
  pub lru-EvictionLaws :
      {measure_key : K → ℕ} → EvictionLaws {V = V} dec (lru_policy dec h) (Inv laws) measure_key
  unfolding initial clear on_update victims
  lru-EvictionLaws = record {
    initial-Inv = empty-IsIndexed laws 0;
    victims-initial = refl;
    clear-Inv = λ s v. empty-IsIndexed laws s.next_node;
    victims-clear = λ s. refl;
    victims-Distinct = λ s v. reverse-Distinct dec (recency laws s) v.keys;
    on_insert_lem = λ s k item v sizes new.
        let (s', run, v', e) =
          lru_insert_lem laws s k item v (sym (victims_contains laws s k) ∙ new) in
        (
          s',
          run,
          v',
          λ j.
              ground (
                arith,
                victims_contains laws s' j,
                victims_contains laws s j,
                ap (contains dec j) e,
              ),
        );
    on_update_lem = λ s k old new v sizes there. hit_lem s k new v there;
    on_cache_hit_lem = λ s k item v sizes there. hit_lem s k item v there;
    on_cache_miss_lem = λ s k v. (s, refl, v, λ j. refl);
    on_evict_lem = lru_evict_lem laws;
  }
    where
      hit_lem :
          (s : EvictionLru K N) (k : K) (item : Item V)
          → Inv laws s
          → contains dec k (victims s) ≡ true
          → (s' : EvictionLru K N) × (on_cache_hit dec h s k item ≡ ok s')
            × Inv laws s'
            × ((j : K) → contains dec j (victims s') ≡ contains dec j (victims s))
      hit_lem s k item v there =
          let there' = sym (victims_contains laws s k) ∙ there in
          let (s', run, v', e) = lru_hit_lem laws s k item v there' in
          (
            s',
            run,
            v',
            λ j.
                victims_contains laws s' j
                ∙ moved_contains laws s s' k j v there' e
                ∙ sym (victims_contains laws s j),
          )
