-- ===== src/Constraint/Memory.antt =====
-- include/cachemere/policy/constraint_memory.{h,hpp}: a bound on the total size of the items. The
-- sums wrap as `size_t` does.
use cachemere.Common.{
  ℕ, ◌+◌, ◌-◌, ◌%◌, ◌≤◌, ◌<◌, ◌≡◌, refl, Bool, some, none, ◌==◌, leb, arith, Outcome, ok, ◌>>◌,
  assert, true, false, ◌⊎◌, inl, inr, Bool-cases, leb→le,
}
use cachemere.Item.{Item, IsExact, size_mod}
use cachemere.Policy.{ConstraintPolicy}
use cachemere.Policy.Laws.{ConstraintLaws}

pub record ConstraintMemory : Type 0 where
  pub maximum_memory : ℕ
  pub memory : ℕ

unfoldable pub update : ConstraintMemory → ℕ → ConstraintMemory
update c max_memory = record c { maximum_memory = max_memory }

unfoldable pub construct : ℕ → ConstraintMemory
unfolding update
construct max_memory = update (record { maximum_memory = 0; memory = 0 }) max_memory

pub clear : ConstraintMemory → ConstraintMemory
clear c = record c { memory = 0 }

pub is_satisfied : ConstraintMemory → Bool
is_satisfied c = leb c.memory c.maximum_memory

module _ {K V : Type 0} where
  unfoldable pub can_add : ConstraintMemory → K → Item V → Bool
  can_add c k item = leb ((c.memory + item.total_size) % size_mod) c.maximum_memory

  pub can_replace : ConstraintMemory → K → Item V → Item V → Outcome Bool
  can_replace c k old new = do
    assert (old.key_size == new.key_size)
    ok (
        leb (((c.memory + size_mod - old.value_size) % size_mod + new.value_size) % size_mod)
          c.maximum_memory)

  unfoldable pub on_insert : ConstraintMemory → K → Item V → Outcome ConstraintMemory
  on_insert c k item = do
    let memory = (c.memory + item.total_size) % size_mod
    assert (leb memory c.maximum_memory)
    ok (record c { memory = memory })

  pub on_update : ConstraintMemory → K → Item V → Item V → Outcome ConstraintMemory
  on_update c k old new = do
    let memory = ((c.memory + size_mod - old.value_size) % size_mod + new.value_size) % size_mod
    assert (leb memory c.maximum_memory)
    ok (record c { memory = memory })

  pub on_evict : ConstraintMemory → K → Item V → Outcome ConstraintMemory
  on_evict c k item = do
    assert (leb item.total_size c.memory)
    ok (record c { memory = (c.memory + size_mod - item.total_size) % size_mod })

  abbrev pub memory_policy : ConstraintPolicy K V ConstraintMemory
  memory_policy = record {
    construct = construct;
    clear = clear;
    can_add = can_add;
    can_replace = can_replace;
    is_satisfied = is_satisfied;
    update = update;
    handlers = record {
      on_insert = some on_insert;
      on_update = some on_update;
      on_cache_hit = none;
      on_cache_miss = none;
      on_evict = some on_evict;
    };
  }

  on_insert_lem :
      (c : ConstraintMemory) (k : K) (item : Item V)
      → c.memory + item.total_size ≤ c.maximum_memory
      → c.maximum_memory < size_mod
      → (c' : ConstraintMemory) × (on_insert c k item ≡ ok c')
        × (c'.memory ≡ c.memory + item.total_size)
        × (c'.maximum_memory ≡ c.maximum_memory)
  unfolding on_insert
  on_insert_lem c k item h m = (
    record c { memory = (c.memory + item.total_size) % size_mod },
    ground arith,
    omega arith,
    refl,
  )

  on_update_lem :
      (c : ConstraintMemory) (k : K) (old new : Item V)
      → old.total_size ≤ c.memory
      → c.memory - old.total_size + new.total_size ≤ c.maximum_memory
      → c.maximum_memory < size_mod
      → IsExact old
      → IsExact new
      → old.key_size ≡ new.key_size
      → (c' : ConstraintMemory) × (on_update c k old new ≡ ok c')
        × (c'.memory ≡ c.memory - old.total_size + new.total_size)
        × (c'.maximum_memory ≡ c.maximum_memory)
  unfolding on_update
  on_update_lem c k old new fits room m exact_old exact_new same = (
    record c {
      memory = ((c.memory + size_mod - old.value_size) % size_mod + new.value_size) % size_mod;
    },
    ground arith,
    omega arith,
    refl,
  )

  on_evict_lem :
      (c : ConstraintMemory) (k : K) (item : Item V)
      → item.total_size ≤ c.memory
      → c.memory < size_mod
      → (c' : ConstraintMemory) × (on_evict c k item ≡ ok c')
        × (c'.memory ≡ c.memory - item.total_size)
        × (c'.maximum_memory ≡ c.maximum_memory)
  unfolding on_evict
  on_evict_lem c k item fits m = (
    record c { memory = (c.memory + size_mod - item.total_size) % size_mod },
    ground arith,
    omega arith,
    refl,
  )

  -- The memory constraint bounds the sum of the items' total sizes.
  pub memory-ConstraintLaws :
      ConstraintLaws memory_policy (λ item. item.total_size) (λ c. c.memory) (λ c. c.maximum_memory)
  unfolding construct clear update is_satisfied can_add can_replace
  memory-ConstraintLaws = record {
    construct_lem = λ n. (refl, refl);
    clear_lem = λ c. (refl, refl);
    update_lem = λ c n. (refl, refl);
    is_satisfied_lem = λ c. refl;
    can_add_lem = λ c k item h m. ground arith;
    can_replace_lem = λ c k old new h m fits exact_old exact_new same. ground arith;
    on_insert_lem = on_insert_lem;
    on_update_lem = on_update_lem;
    on_cache_miss_lem = λ c k. (c, refl, refl, refl);
    on_evict_lem = on_evict_lem;
  }

  -- For the memory constraint within its bound, where the sums do not wrap: an item that `can_add`
  -- admits is inserted within the bound and without a failed assertion, and its eviction gives back
  -- the constraint as it was.
  pub memory_insert-evict :
      (c : ConstraintMemory) (k : K) (item : Item V)
      → c.memory ≤ c.maximum_memory
      → c.maximum_memory + item.total_size < size_mod
      → can_add c k item ≡ true
      → (c' : ConstraintMemory) × (on_insert c k item ≡ ok c')
        × (c'.memory ≤ c'.maximum_memory)
        × (on_evict c' k item ≡ ok c)
  unfolding can_add on_insert on_evict
  memory_insert-evict c k item within small fits = (
    record c { memory = (c.memory + item.total_size) % size_mod },
    ground arith,
    ground arith,
    ground arith,
  )

  -- For the memory constraint within its bound, where the sums do not wrap, and for items of one
  -- key size whose sizes add up: `can_replace` fails no assertion; if it admits the new item in
  -- place of the old one, `on_update` fails none either, stays within the bound, and counts the new
  -- item's size in place of the old one's.
  pub memory_replace-update :
      (c : ConstraintMemory) (k : K) (old new : Item V)
      → c.memory ≤ c.maximum_memory
      → old.total_size ≤ c.memory
      → c.maximum_memory + new.total_size < size_mod
      → IsExact old
      → IsExact new
      → old.key_size ≡ new.key_size
      → (can_replace c k old new ≡ ok false)
        ⊎ ((c' : ConstraintMemory) × (can_replace c k old new ≡ ok true)
            × (on_update c k old new ≡ ok c')
            × (c'.memory ≤ c'.maximum_memory)
            × (c'.memory + old.total_size ≡ c.memory + new.total_size))
  unfolding can_replace
  memory_replace-update c k old new within held small exact_old exact_new same =
      elim (Bool-cases (leb (c.memory - old.total_size + new.total_size) c.maximum_memory)) [
        | inr full ↦ inl (ground arith)
        | inl room ↦
            let (c', run, sum, bound) =
              on_update_lem c k old new held (leb→le _ _ room) (omega arith) exact_old exact_new
                same in
            inr (c', ground arith, run, omega (arith, leb→le _ _ room), omega arith)
      ]
