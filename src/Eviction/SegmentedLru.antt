-- ===== src/Eviction/SegmentedLru.antt =====
-- include/cachemere/policy/eviction_segmented_lru.{h,hpp}: keys come in on probation, and a hit
-- moves a key to the protected segment, whose last key then makes room on probation. A reference to
-- a key is the key itself, and `next_node` is the identity that the next list node gets.
pub mod Iterator
pub mod Moves
pub mod Touch
pub mod Hit
pub mod Victims
pub mod Evict
pub mod Laws
pub mod Resize
use cachemere.Common.{
  ℕ, zero, suc, ◌+◌, ◌≡◌, Bool, true, false, not, none, some, List, [], ◌∷◌, ◌||◌, reverse, arith,
  Outcome, ok, fault, assertion_failed, out_of_fuel, ◌>>=◌, ◌>>◌, assert, is_some, is_nonempty,
  length, ltb, ◌==◌,
}
use cachemere.Common.Maps.{HashMap}
use cachemere.Item.{Item}
use cachemere.Policy.{EvictionPolicy}
use cachemere.LinkedList.{Nodes, node_keys, back, is_begin, splice, splice_self, erase_iterator}
use Iterator.{walk, make_iterator}

pub record EvictionSegmentedLru (K N : Type 0) : Type 0 where
  pub protected_segment_size : ℕ
  pub probation_list : Nodes K
  pub probation_nodes : N
  pub protected_list : Nodes K
  pub protected_nodes : N
  pub next_node : ℕ

abbrev pub visited : {K : Type 0} → Outcome (List K) → List K
visited (ok ks) = ks
visited (fault e) = []

module _ {K N : Type 0} where
  unfoldable pub set_protected_segment_size :
      EvictionSegmentedLru K N → ℕ → EvictionSegmentedLru K N
  set_protected_segment_size s size = record s { protected_segment_size = size }

  -- A loop from `victim_begin` to `victim_end`. The fuel is one more than the keys.
  unfoldable pub iterate : EvictionSegmentedLru K N → Outcome (List K)
  iterate s =
      walk (suc (length s.probation_list + length s.protected_list)) (
        make_iterator (reverse (node_keys s.probation_list)) (reverse (node_keys s.protected_list)))

  -- The keys that it goes over.
  unfoldable pub victims : EvictionSegmentedLru K N → List K
  unfolding iterate
  victims s = visited (iterate s)

module _ {K N : Type 0} (h : HashMap K ℕ N) where
  open h use {find, insert_or_assign, erase, entries, empty}

  -- The size of the protected segment has no initial value in the sources; here it is given.
  unfoldable pub initial : ℕ → EvictionSegmentedLru K N
  initial size = record {
    protected_segment_size = size;
    probation_list = [];
    probation_nodes = empty;
    protected_list = [];
    protected_nodes = empty;
    next_node = 0;
  }

  pub clear : EvictionSegmentedLru K N → EvictionSegmentedLru K N
  clear s = record s {
    probation_list = [];
    probation_nodes = empty;
    protected_list = [];
    protected_nodes = empty;
  }

  -- `nodes.emplace(key, it)`, which keeps an entry that is there.
  unfoldable pub emplace : N → K → ℕ → N
  emplace nodes k it = elim (find nodes k) [ none ↦ insert_or_assign nodes k it | some _ ↦ nodes ]

  pub move_to_protected : EvictionSegmentedLru K N → K → Outcome (EvictionSegmentedLru K N × Bool)
  unfolding emplace
  move_to_protected s k = elim (find s.probation_nodes k) [
    | none ↦ ok (s, false)
    | some node ↦ do
      (protected, probation) ← splice s.protected_list s.probation_list node
      ok (
        record s {
          protected_list = protected;
          probation_list = probation;
          probation_nodes = erase s.probation_nodes k;
          protected_nodes = emplace s.protected_nodes k node;
        },
        true,
      )
  ]

  pub pop_to_probation : EvictionSegmentedLru K N → Outcome (EvictionSegmentedLru K N × Bool)
  unfolding emplace
  pop_to_probation s = elim (back s.protected_list) [
    | none ↦ ok (s, false)
    | some (node, k) ↦ do
      (probation, protected) ← splice s.probation_list s.protected_list node
      ok (
        record s {
          protected_list = protected;
          probation_list = probation;
          protected_nodes = erase s.protected_nodes k;
          probation_nodes = emplace s.probation_nodes k node;
        },
        true,
      )
  ]

  -- The `while` loop of `on_cache_hit`.
  pub demote_overflow : ℕ → EvictionSegmentedLru K N → Outcome (EvictionSegmentedLru K N)
  unfolding pop_to_probation
  demote_overflow zero s = fault out_of_fuel
  demote_overflow (suc fuel) s = elim (ltb s.protected_segment_size (length s.protected_list)) [
    | false ↦ ok s
    | true ↦ do
      (s', demotion_ok) ← pop_to_probation s
      assert demotion_ok
      assert (length s'.protected_list == s'.protected_segment_size)
      demote_overflow fuel s'
  ]

  -- `assert(nodes.size() == list.size())`, for both segments.
  pub assert_sizes : EvictionSegmentedLru K N → Outcome (Unit {0})
  assert_sizes s = do
    assert (length (entries s.probation_nodes) == length s.probation_list)
    assert (length (entries s.protected_nodes) == length s.protected_list)

  -- The `if` of `on_cache_hit`.
  pub touch : EvictionSegmentedLru K N → K → Outcome (EvictionSegmentedLru K N)
  touch s k = elim (find s.protected_nodes k) [
    | some node ↦ elim (is_begin node s.protected_list) [
      | true ↦ ok s
      | false ↦ do
        protected ← splice_self s.protected_list node
        ok (record s { protected_list = protected })
    ]
    | none ↦ do (s', promotion_ok) ← move_to_protected s k; assert promotion_ok; ok s'
  ]

module _ {K V N : Type 0} (h : HashMap K ℕ N) where
  open h use {find, insert_or_assign, erase, entries}

  unfoldable pub on_insert :
      EvictionSegmentedLru K N → K → Item V → Outcome (EvictionSegmentedLru K N)
  unfolding emplace
  on_insert s k item = do
    assert (not (is_some (find s.probation_nodes k)))
    ok (record s {
      probation_list = (s.next_node, k) ∷ s.probation_list;
      probation_nodes = emplace h s.probation_nodes k s.next_node;
      next_node = suc s.next_node;
    })

  -- The fuel is one more than the keys of the protected segment.
  pub on_cache_hit : EvictionSegmentedLru K N → K → Item V → Outcome (EvictionSegmentedLru K N)
  unfolding touch
  on_cache_hit s k item = do
    assert_sizes h s
    s' ← touch h s k
    s'' ← demote_overflow h (suc (length s'.protected_list)) s'
    assert_sizes h s''
    ok s''

  pub on_update :
      EvictionSegmentedLru K N → K → Item V → Item V → Outcome (EvictionSegmentedLru K N)
  unfolding on_cache_hit
  on_update s k old new = on_cache_hit s k new

  pub on_evict : EvictionSegmentedLru K N → K → Item V → Outcome (EvictionSegmentedLru K N)
  on_evict s k item = do
    assert (is_nonempty s.protected_list || is_nonempty s.probation_list)
    elim (find s.probation_nodes k) [
      | some node ↦ do
        probation ← erase_iterator node s.probation_list
        ok (record s { probation_list = probation; probation_nodes = erase s.probation_nodes k })
      | none ↦ elim (find s.protected_nodes k) [
        | none ↦ fault assertion_failed
        | some node ↦ do
          protected ← erase_iterator node s.protected_list
          ok (record s { protected_list = protected; protected_nodes = erase s.protected_nodes k })
      ]
    ]

  abbrev pub segmented_lru_policy : ℕ → EvictionPolicy K V (EvictionSegmentedLru K N)
  segmented_lru_policy size = record {
    initial = initial h size;
    clear = clear h;
    victims = victims;
    handlers = record {
      on_insert = some on_insert;
      on_update = some on_update;
      on_cache_hit = some on_cache_hit;
      on_cache_miss = none;
      on_evict = some on_evict;
    };
  }
