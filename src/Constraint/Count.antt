-- ===== src/Constraint/Count.antt =====
-- include/cachemere/policy/constraint_count.{h,hpp}: a bound on the number of items.
use cachemere.Common.{
  ℕ, ◌+◌, ◌-◌, ◌%◌, ◌≤◌, ◌<◌, ◌≡◌, refl, Bool, true, some, none, ltb, leb, arith, Outcome, ok, ◌>>◌,
  assert,
}
use cachemere.Item.{Item, size_mod}
use cachemere.Policy.{ConstraintPolicy}
use cachemere.Policy.Laws.{ConstraintLaws}

pub record ConstraintCount : Type 0 where
  pub maximum_count : ℕ
  pub count : ℕ

pub update : ConstraintCount → ℕ → ConstraintCount
update c maximum_count = record c { maximum_count = maximum_count }

pub construct : ℕ → ConstraintCount
unfolding update
construct maximum_count = update (record { maximum_count = 0; count = 0 }) maximum_count

pub clear : ConstraintCount → ConstraintCount
clear c = record c { count = 0 }

pub is_satisfied : ConstraintCount → Bool
is_satisfied c = leb c.count c.maximum_count

module _ {K V : Type 0} where
  unfoldable pub can_add : ConstraintCount → K → Item V → Bool
  can_add c k item = ltb c.count c.maximum_count

  pub can_replace : ConstraintCount → K → Item V → Item V → Outcome Bool
  can_replace c k old new = do assert (ltb 0 c.count); ok true

  pub on_insert : ConstraintCount → K → Item V → Outcome ConstraintCount
  on_insert c k item = ok (record c { count = (c.count + 1) % size_mod })

  pub on_evict : ConstraintCount → K → Item V → Outcome ConstraintCount
  on_evict c k item = do
    assert (ltb 0 c.count)
    ok (record c { count = (c.count + size_mod - 1) % size_mod })

  abbrev pub count_policy : ConstraintPolicy K V ConstraintCount
  count_policy = record {
    construct = construct;
    clear = clear;
    can_add = can_add;
    can_replace = can_replace;
    is_satisfied = is_satisfied;
    update = update;
    handlers = record {
      on_insert = some on_insert;
      on_update = none;
      on_cache_hit = none;
      on_cache_miss = none;
      on_evict = some on_evict;
    };
  }

  on_evict_lem :
      (c : ConstraintCount) (k : K) (item : Item V)
      → 1 ≤ c.count
      → c.count < size_mod
      → (c' : ConstraintCount) × (on_evict c k item ≡ ok c')
        × (c'.count ≡ c.count - 1)
        × (c'.maximum_count ≡ c.maximum_count)
  unfolding on_evict
  on_evict_lem c k item fits m =
      (record c { count = (c.count + size_mod - 1) % size_mod }, ground arith, omega arith, refl)

  -- The count constraint bounds the number of items: each weighs one.
  pub count-ConstraintLaws :
      ConstraintLaws count_policy (λ item. 1) (λ c. c.count) (λ c. c.maximum_count)
  unfolding construct clear update is_satisfied can_add can_replace on_insert
  count-ConstraintLaws = record {
    construct_lem = λ n. (refl, refl);
    clear_lem = λ c. (refl, refl);
    update_lem = λ c n. (refl, refl);
    is_satisfied_lem = λ c. refl;
    can_add_lem = λ c k item h m. ground arith;
    can_replace_lem = λ c k old new h m fits exact_old exact_new same. ground arith;
    on_insert_lem =
        λ c k item h m. (record c { count = (c.count + 1) % size_mod }, refl, omega arith, refl);
    on_update_lem =
        λ c k old new fits room m exact_old exact_new same. (c, refl, omega arith, refl);
    on_cache_miss_lem = λ c k. (c, refl, refl, refl);
    on_evict_lem = on_evict_lem;
  }

  -- For the count constraint within its bound, where the count does not wrap: an item that
  -- `can_add` admits is inserted within the bound and without a failed assertion, and its eviction
  -- gives back the constraint as it was.
  pub count_insert-evict :
      (c : ConstraintCount) (k : K) (item : Item V)
      → c.count ≤ c.maximum_count
      → c.maximum_count + 1 < size_mod
      → can_add c k item ≡ true
      → (c' : ConstraintCount) × (on_insert c k item ≡ ok c')
        × (c'.count ≤ c'.maximum_count)
        × (on_evict c' k item ≡ ok c)
  unfolding can_add on_insert on_evict
  count_insert-evict c k item within small fits =
      (record c { count = (c.count + 1) % size_mod }, ground arith, ground arith, ground arith)
