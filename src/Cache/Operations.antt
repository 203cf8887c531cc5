-- ===== src/Cache/Operations.antt =====
-- cache.hpp: the public operations of `Cache`.
use mathlib.Core.List.{foldl}
use cachemere.Common.{
  ℕ, suc, Bool, true, false, not, Option, none, some, List, [], ◌∷◌, Outcome, ok, fault,
  assertion_failed, out_of_fuel, ◌>>=◌, ◌>>◌, assert, is_some, length,
}
use cachemere.Item.{Item}
use cachemere.Cache.{Cache, Template}
use cachemere.Cache.Events.{
  new_item, on_insert, on_cache_hit, on_cache_miss, remove_entry, insert_or_update,
}
use cachemere.Cache.Admission.{check_insert, check_replace}

module _ {K V I E C D A R : Type 0} (dec : Discrete K) (t : Template K V I E C D A R) where
  open t use {
    eviction.{victims},
    constraint.{can_add, is_satisfied},
    data_map.{insert_or_assign, entries},
    accumulator.{make, rolling_mean},
  }

  abbrev lookup_item : Cache I E C D A → K → Option (Item V)
  lookup_item c k = t.data_map.find c.items k

  -- The constructor, with the bound of the constraint policy as its argument.
  unfoldable pub create : ℕ → Cache I E C D A
  create bound = record {
    statistics_window_size = 1000;
    insertion_policy = t.insertion.initial;
    eviction_policy = t.eviction.initial;
    constraint_policy = t.constraint.construct bound;
    items = t.data_map.empty;
    hit_rate_acc = make 1000;
    byte_hit_rate_acc = make 1000;
  }

  unfoldable pub contains : Cache I E C D A → K → Bool
  contains c k = is_some (lookup_item c k)

  unfoldable pub find : Cache I E C D A → K → Outcome (Cache I E C D A × Option V)
  find c k = elim (lookup_item c k) [
    | some item ↦ do c' ← on_cache_hit t c k item; ok (c', some item.value)
    | none ↦ do c' ← on_cache_miss t c k; ok (c', none)
  ]

  unfoldable pub insert : Cache I E C D A → K → V → Outcome (Cache I E C D A × Bool)
  insert c k v =
      let item = new_item t k v in
      elim (lookup_item c k) [
        | some old ↦ do
          (c', accepted) ← check_replace dec t c k old item
          elim accepted [
            | true ↦ do c'' ← insert_or_update t c' k item; ok (c'', true)
            | false ↦ ok (c', false)
          ]
        | none ↦ do
          (c', accepted) ← check_insert dec t c k item
          elim accepted [
            | true ↦ do
              assert (not (contains c' k))
              c'' ← on_insert t (record c' { items = insert_or_assign c'.items k item }) k item
              ok (c'', true)
            | false ↦ ok (c', false)
          ]
      ]

  unfoldable pub remove : Cache I E C D A → K → Outcome (Cache I E C D A × Bool)
  remove c k = elim (lookup_item c k) [
    | some item ↦ do c' ← remove_entry t c (k, item); ok (c', true)
    | none ↦ ok (c, false)
  ]

  unfoldable pub clear : Cache I E C D A → Cache I E C D A
  clear c = record c {
    items = t.data_map.empty;
    hit_rate_acc = make c.statistics_window_size;
    byte_hit_rate_acc = make c.statistics_window_size;
    insertion_policy = t.insertion.clear c.insertion_policy;
    eviction_policy = t.eviction.clear c.eviction_policy;
    constraint_policy = t.constraint.clear c.constraint_policy;
  }

  -- The loop of `retain` over the entries that are left to visit.
  unfoldable pub retain_from :
      (K → V → Bool) → List (K × Item V) → Cache I E C D A → Outcome (Cache I E C D A)
  retain_from predicate_fn [] c = ok c
  retain_from predicate_fn ((k, item) ∷ rest) c = elim (predicate_fn k item.value) [
    | true ↦ retain_from predicate_fn rest c
    | false ↦ do c' ← remove_entry t c (k, item); retain_from predicate_fn rest c'
  ]

  unfoldable pub retain : (K → V → Bool) → Cache I E C D A → Outcome (Cache I E C D A)
  unfolding retain_from
  retain predicate_fn c = retain_from predicate_fn (entries c.items) c

  -- The function has the state `S` for its effects.
  unfoldable pub for_each : {S : Type 0} → (S → K → V → S) → S → Cache I E C D A → S
  for_each unary_function s c = foldl (λ s' e. unary_function s' e.0 e.1.value) s (entries c.items)

  -- `emplace` is the container's `emplace_back` or `emplace`.
  unfoldable pub collect_into : {S : Type 0} → (S → K → V → S) → S → Cache I E C D A → S
  collect_into emplace container c =
      foldl (λ s e. emplace s e.0 e.1.value) container (entries c.items)

  unfoldable pub number_of_items : Cache I E C D A → ℕ
  number_of_items c = length (entries c.items)

  -- The loop of `update_constraint`. It starts again from the first victim after each eviction.
  unfoldable pub evict_until_satisfied : ℕ → Cache I E C D A → Outcome (Cache I E C D A)
  evict_until_satisfied ℕ.zero c = fault out_of_fuel
  evict_until_satisfied (suc fuel) c = elim (victims c.eviction_policy) [
    | [] ↦ ok c
    | key_to_evict ∷ _ ↦ elim (is_satisfied c.constraint_policy) [
      | true ↦ ok c
      | false ↦ elim (lookup_item c key_to_evict) [
        | none ↦ fault assertion_failed
        | some item ↦ do c' ← remove_entry t c (key_to_evict, item); evict_until_satisfied fuel c'
      ]
    ]
  ]

  -- The fuel is one more than the victims that there are.
  unfoldable pub update_constraint : Cache I E C D A → ℕ → Outcome (Cache I E C D A)
  unfolding evict_until_satisfied
  update_constraint c bound = do
    let c' = record c { constraint_policy = t.constraint.update c.constraint_policy bound }
    c'' ← evict_until_satisfied (suc (length (victims c.eviction_policy))) c'
    assert (is_satisfied c''.constraint_policy)
    ok c''

  -- It stops at the first item that the constraint has no room for.
  unfoldable pub import : List (K × V) → Cache I E C D A → Outcome (Cache I E C D A)
  import [] c = ok c
  import ((k, v) ∷ rest) c =
      let item = new_item t k v in
      elim (can_add c.constraint_policy k item) [
        | false ↦ ok c
        | true ↦ do c' ← insert_or_update t c k item; import rest c'
      ]

  -- The constructor from a collection.
  unfoldable pub create_from : List (K × V) → ℕ → Outcome (Cache I E C D A)
  unfolding create import
  create_from collection bound = import collection (create bound)

  unfoldable pub swap : Cache I E C D A → Cache I E C D A → Cache I E C D A × Cache I E C D A
  swap a b = (
    record a {
      statistics_window_size = b.statistics_window_size;
      insertion_policy = b.insertion_policy;
      eviction_policy = b.eviction_policy;
      constraint_policy = b.constraint_policy;
      items = b.items;
      hit_rate_acc = b.hit_rate_acc;
      byte_hit_rate_acc = b.byte_hit_rate_acc;
    },
    record b {
      statistics_window_size = a.statistics_window_size;
      insertion_policy = a.insertion_policy;
      eviction_policy = a.eviction_policy;
      constraint_policy = a.constraint_policy;
      items = a.items;
      hit_rate_acc = a.hit_rate_acc;
      byte_hit_rate_acc = a.byte_hit_rate_acc;
    },
  )

  pub hit_rate : Cache I E C D A → R
  hit_rate c = rolling_mean c.hit_rate_acc

  pub byte_hit_rate : Cache I E C D A → R
  byte_hit_rate c = rolling_mean c.byte_hit_rate_acc

  unfoldable pub set_statistics_window_size : Cache I E C D A → ℕ → Cache I E C D A
  set_statistics_window_size c window_size = record c {
    statistics_window_size = window_size;
    hit_rate_acc = make window_size;
    byte_hit_rate_acc = make window_size;
  }
