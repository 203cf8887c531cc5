-- ===== src/Cache/Views.antt =====
-- cache.hpp: `contains`, `find` and `on_cache_miss` are templates over the type `KeyView` of their
-- argument; these are their instances at a view of keys.
pub mod Lookups
use cachemere.Common.{Bool, Option, none, some, Outcome, ok, ◌>>=◌, is_some}
use cachemere.Common.Maps.Views.{ViewMap}
use cachemere.Item.{Item}
use cachemere.Cache.{Cache, Template}
use cachemere.Cache.Events.{on_cache_hit}

-- The instances of the policies' own `on_cache_miss`, where they have one.
pub record ViewHandlers (Q I E C : Type 0) : Type 0 where
  pub insertion : Option (I → Q → Outcome I)
  pub eviction : Option (E → Q → Outcome E)
  pub constraint : Option (C → Q → Outcome C)

abbrev pub tell : {S Q : Type 0} → Option (S → Q → Outcome S) → S → Q → Outcome S
tell none s q = ok s
tell (some f) s q = f s q

module _ {K V I E C D A R Q : Type 0} (t : Template K V I E C D A R) (view : ViewMap Q K (Item V) D)
    (handlers : ViewHandlers Q I E C) where
  open t use {accumulator.{add}}
  open view use {find_view}

  unfoldable pub contains_by_view : Cache I E C D A → Q → Bool
  contains_by_view c key = is_some (find_view c.items key)

  unfoldable pub on_cache_miss_by_view : Cache I E C D A → Q → Outcome (Cache I E C D A)
  on_cache_miss_by_view c key = do
    i ← tell handlers.insertion c.insertion_policy key
    v ← tell handlers.eviction c.eviction_policy key
    n ← tell handlers.constraint c.constraint_policy key
    ok (record c {
      hit_rate_acc = add c.hit_rate_acc 0;
      byte_hit_rate_acc = add c.byte_hit_rate_acc 0;
      insertion_policy = i;
      eviction_policy = v;
      constraint_policy = n;
    })

  -- The policies hear of a hit by the stored key, of a miss by the view.
  unfoldable pub find_by_view : Cache I E C D A → Q → Outcome (Cache I E C D A × Option V)
  unfolding on_cache_miss_by_view
  find_by_view c key = elim (find_view c.items key) [
    | some (k, item) ↦ do c' ← on_cache_hit t c k item; ok (c', some item.value)
    | none ↦ do c' ← on_cache_miss_by_view c key; ok (c', none)
  ]
