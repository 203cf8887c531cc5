-- ===== src/Eviction/Gdsf.antt =====
-- include/cachemere/policy/eviction_gdsf.{h,hpp}: the key with the smallest coefficient goes first. The
-- coefficient adds a clock to the frequency of the key, weighted by the cost of its item for each byte.
-- A reference to a key is the key itself, and `next_node` is the identity that the next node gets.
pub mod Priorities
pub mod Indexed
pub mod Placing
pub mod Handlers
pub mod Timely
pub mod Priced
pub mod Laws
pub mod Reachable
use cachemere.Common.{
  ℕ, suc, max, Bool, true, false, not, none, some, Option, List, [], map, Outcome, ok, fault,
  assertion_failed, undefined_behaviour, ◌>>=◌, ◌>>◌, assert, is_some,
}
use cachemere.Common.Maps.{HashMap}
use cachemere.Double.{Double}
use cachemere.Item.{Item}
use cachemere.Policy.{EvictionPolicy}
use cachemere.Filter.Counting
use cachemere.Filter.Counting.{CountingBloomFilter, add, estimate, make_counters}
use Priorities.{PriorityEntry, PrioritySet, emplace_number, erase_at, entry_at}

abbrev pub default_cache_cardinality : ℕ
default_cache_cardinality = 2000

pub record EvictionGdsf (K W N : Type 0) : Type 0 where
  pub frequency_sketch : CountingBloomFilter
  pub priority_set : PrioritySet K W
  pub iterator_map : N
  pub clock : ℕ
  pub next_node : ℕ

module _ {K W N : Type 0} where
  -- The keys from `victim_begin` to `victim_end`.
  unfoldable pub victims : EvictionGdsf K W N → List K
  victims s = map (λ n. n.1.key) s.priority_set

  pub set_cardinality : Double W → EvictionGdsf K W N → ℕ → Outcome (EvictionGdsf K W N)
  set_cardinality d s cardinality = do
    sketch ← make_counters d cardinality
    ok (record s { frequency_sketch = sketch })

module _ {K W N : Type 0} (h : HashMap K ℕ N) where
  -- Over the sketch, which `construct` makes if no assertion fails.
  unfoldable pub initial : CountingBloomFilter → EvictionGdsf K W N
  initial sketch = record {
    frequency_sketch = sketch;
    priority_set = [];
    iterator_map = h.empty;
    clock = 0;
    next_node = 0;
  }

  -- A new policy.
  pub construct : Double W → Outcome (EvictionGdsf K W N)
  construct d = do sketch ← make_counters d default_cache_cardinality; ok (initial sketch)

  -- The clock goes on.
  pub clear : EvictionGdsf K W N → EvictionGdsf K W N
  clear s = record s {
    priority_set = [];
    iterator_map = h.empty;
    frequency_sketch = Counting.clear s.frequency_sketch;
  }

-- `static_cast<uint64_t>(x)`, which is undefined for a value that does not fit, a NaN or an infinity.
unfoldable pub cast_u64 : {W : Type 0} → Double W → W → Outcome ℕ
cast_u64 d x = elim (d.in_u64 x) [ true ↦ ok (d.to_u64 x) | false ↦ fault undefined_behaviour ]

module _ {K V W : Type 0} (d : Double W) (measure_cost : K → Item V → W) where
  -- The formula, over the estimate of the frequency.
  unfoldable pub h_coefficient : ℕ → ℕ → K → Item V → W
  h_coefficient clock count key item =
      d.add (d.of_u64 clock)
        (d.mul (d.of_u64 count) (d.div (measure_cost key item) (d.of_u64 item.total_size)))

module _ {K V W N : Type 0} (d : Double W) (h : HashMap K ℕ N) (hash : K → ℕ)
    (measure_cost : K → Item V → W) where
  open h use {find, insert_or_assign, erase}

  unfoldable pub get_h_coefficient : EvictionGdsf K W N → K → Item V → Outcome W
  unfolding h_coefficient
  get_h_coefficient s key item = do
    count ← estimate hash s.frequency_sketch key
    ok (h_coefficient d measure_cost s.clock count key item)

  unfoldable pub on_insert : EvictionGdsf K W N → K → Item V → Outcome (EvictionGdsf K W N)
  unfolding get_h_coefficient emplace_number
  on_insert s key item = do
    sketch ← add hash s.frequency_sketch key
    let s' = record s { frequency_sketch = sketch }
    coefficient ← get_h_coefficient s' key item
    set ←
        emplace_number d (s.next_node, record { key = key; h_coefficient = coefficient })
          s.priority_set
    ok (record s' {
      priority_set = set;
      iterator_map = insert_or_assign s.iterator_map key s.next_node;
      next_node = suc s.next_node;
    })

  pub on_cache_hit : EvictionGdsf K W N → K → Item V → Outcome (EvictionGdsf K W N)
  unfolding on_insert
  on_cache_hit s key item = elim (find s.iterator_map key) [
    | none ↦ fault assertion_failed
    | some it ↦ do
      set ← erase_at s.priority_set it
      on_insert (record s { priority_set = set }) key item
  ]

  pub on_update : EvictionGdsf K W N → K → Item V → Item V → Outcome (EvictionGdsf K W N)
  unfolding on_cache_hit
  on_update s key old new = on_cache_hit s key new

  pub on_evict : EvictionGdsf K W N → K → Item V → Outcome (EvictionGdsf K W N)
  on_evict s key item = elim (find s.iterator_map key) [
    | none ↦ fault assertion_failed
    | some it ↦ elim (entry_at it s.priority_set) [
      | none ↦ fault undefined_behaviour
      | some entry ↦ do
        coefficient ← cast_u64 d entry.h_coefficient
        set ← erase_at s.priority_set it
        let s' = record s {
          clock = max s.clock coefficient;
          priority_set = set;
          iterator_map = erase s.iterator_map key;
        }
        assert (not (is_some (find s'.iterator_map key)))
        ok s'
    ]
  ]

  abbrev pub gdsf_policy : CountingBloomFilter → EvictionPolicy K V (EvictionGdsf K W N)
  gdsf_policy sketch = record {
    initial = initial h sketch;
    clear = clear h;
    victims = victims;
    handlers = record {
      on_insert = some on_insert;
      on_update = some on_update;
      on_cache_hit = some on_cache_hit;
      on_cache_miss = none;
      on_evict = some on_evict;
    };
  }
