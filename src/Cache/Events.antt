-- ===== src/Cache/Events.antt =====
-- cache.hpp: the event handlers, by which the cache tells its policies what happened, and the
-- private helpers that change the data map.
use cachemere.Common.{◌%◌, ◌^◌, none, some, Outcome, ok, ◌>>=◌}
use cachemere.Item.{Item, make_item, size_mod}
use cachemere.Policy.{Event, inserted, updated, hit, missed, evicted, notify}
use cachemere.Cache.{Cache, Template}

module _ {K V I E C D A R : Type 0} (t : Template K V I E C D A R) where
  open t use {
    insertion.{handlers as insertion_handlers},
    eviction.{handlers as eviction_handlers},
    constraint.{handlers as constraint_handlers},
    data_map.{find, insert_or_assign, erase},
    accumulator.{add},
  }

  -- The item that `insert` and `import` build, with its sizes measured.
  unfoldable pub new_item : K → V → Item V
  new_item k v = make_item (t.measure_key k % size_mod) v (t.measure_value v % size_mod)

  -- The event goes to the insertion, the eviction and the constraint policy, in this order.
  unfoldable pub notify_all : Event K V → Cache I E C D A → Outcome (Cache I E C D A)
  notify_all e c = do
    i ← notify insertion_handlers e c.insertion_policy
    v ← notify eviction_handlers e c.eviction_policy
    n ← notify constraint_handlers e c.constraint_policy
    ok (record c { insertion_policy = i; eviction_policy = v; constraint_policy = n })

  unfoldable pub on_insert : Cache I E C D A → K → Item V → Outcome (Cache I E C D A)
  unfolding notify_all
  on_insert c k item = notify_all (inserted k item) c

  unfoldable pub on_update : Cache I E C D A → K → Item V → Item V → Outcome (Cache I E C D A)
  unfolding notify_all
  on_update c k old new = notify_all (updated k old new) c

  unfoldable pub on_evict : Cache I E C D A → K → Item V → Outcome (Cache I E C D A)
  unfolding notify_all
  on_evict c k item = notify_all (evicted k item) c

  -- The third call goes to the eviction policy once more, and none to the constraint policy.
  unfoldable pub on_cache_hit : Cache I E C D A → K → Item V → Outcome (Cache I E C D A)
  on_cache_hit c k item = do
    i ← notify insertion_handlers (hit k item) c.insertion_policy
    v ← notify eviction_handlers (hit k item) c.eviction_policy
    v' ← notify eviction_handlers (hit k item) v
    ok (record c {
      hit_rate_acc = add c.hit_rate_acc 1;
      byte_hit_rate_acc = add c.byte_hit_rate_acc (item.value_size % 2 ^ 32);
      insertion_policy = i;
      eviction_policy = v';
    })

  unfoldable pub on_cache_miss : Cache I E C D A → K → Outcome (Cache I E C D A)
  unfolding notify_all
  on_cache_miss c k = notify_all (missed k) (record c {
    hit_rate_acc = add c.hit_rate_acc 0;
    byte_hit_rate_acc = add c.byte_hit_rate_acc 0;
  })

  -- `remove(DataMapIt it)`: the iterator is the entry that it points to.
  unfoldable pub remove_entry : Cache I E C D A → K × Item V → Outcome (Cache I E C D A)
  unfolding on_evict
  remove_entry c (k, item) = do c' ← on_evict c k item; ok (record c' { items = erase c'.items k })

  unfoldable pub insert_or_update : Cache I E C D A → K → Item V → Outcome (Cache I E C D A)
  unfolding on_insert on_update
  insert_or_update c k item = elim (find c.items k) [
    | some old ↦ on_update (record c { items = insert_or_assign c.items k item }) k old item
    | none ↦ on_insert (record c { items = insert_or_assign c.items k item }) k item
  ]
