-- ===== src/Cache/Insertion.antt =====
-- Storing an item that fits, new or over an old one, keeps the cache valid.
pub mod Fits
pub mod Insert
use cachemere.Common.{
  ℕ, ◌+◌, ◌-◌, ◌%◌, ◌≤◌, ◌<◌, ◌≡◌, refl, ite, true, none, some, List, arith, Outcome, ok, is_some,
  total, contains, Option-cases, inl, inr,
}
use cachemere.Common.Maps.Totals.{total-insert, total-assign}
use cachemere.Item.{Item, IsExact, make_item, make_item-IsExact, size_mod}
use cachemere.Policy.{inserted, updated}
use cachemere.Cache.{Cache, Template}
use cachemere.Cache.Events.{new_item, on_insert, on_update, insert_or_update}
use cachemere.Cache.Invariant.{Contract, IsCoherent, IsValid}
use cachemere.Cache.Invariant.Removal.{weight-le-used}

module _ {K V I E C D A R : Type 0} {dec : Discrete K} {t : Template K V I E C D A R}
    {Good : I → Type 0} {Inv : E → Type 0} {weight : Item V → ℕ} {used limit : C → ℕ}
    (laws : Contract dec t Good Inv weight used limit) where
  open t use {eviction.{victims}, data_map.{find, insert_or_assign, entries}}

  abbrev pub Valid : Cache I E C D A → Type 0
  Valid = IsValid dec t Good Inv weight used limit

  -- The item of `k` and `v` has sizes that do not wrap, not with the constraint's limit either.
  pub record HasRoom (c : Cache I E C D A) (k : K) (v : V) : Type 0 where
    pub sizes : t.measure_key k % size_mod + t.measure_value v % size_mod < size_mod
    pub sums : limit c.constraint_policy + weight (new_item t k v) < size_mod

  pub new_item-measured :
      (c : Cache I E C D A) (k : K) (v : V)
      → HasRoom c k v
      → ((new_item t k v).key_size ≡ t.measure_key k % size_mod) × IsExact (new_item t k v)
  unfolding new_item make_item
  new_item-measured c k v room = (
    refl,
    make_item-IsExact (t.measure_key k % size_mod) (t.measure_value v % size_mod) v room.sizes,
  )

  -- `item` is stored under `k`, and nothing else has changed.
  pub record Stored (c : Cache I E C D A) (k : K) (item : Item V) (c' : Cache I E C D A)
      : Type 0 where
    pub valid : Valid c'
    pub limit_same : limit c'.constraint_policy ≡ limit c.constraint_policy
    pub contents : (j : K) → find c'.items j ≡ ite (dec k j) (some item) (find c.items j)

  module _ (c : Cache I E C D A) (k : K) (item : Item V)
      (v : IsCoherent dec t Good Inv weight used limit c)
      (bounded : limit c.constraint_policy < size_mod)
      (measured : (item.key_size ≡ t.measure_key k % size_mod) × IsExact item) where
    measured_after :
        (j : K) (item' : Item V)
        → find (insert_or_assign c.items k item) j ≡ some item'
        → (item'.key_size ≡ t.measure_key j % size_mod) × IsExact item'
    measured_after j item' h = elim (dec k j) [
      | yes e ↦
          let same : item ≡ item' =
            ground (arith, laws.data_map.find-insert_or_assign c.items k j item) in
          rw (← same, ← e) measured
      | no ne ↦
          v.measured j item' (ground (arith, laws.data_map.find-insert_or_assign c.items k j item))
    ]

    pub on_insert_lem :
        find c.items k ≡ none
        → used c.constraint_policy + weight item ≤ limit c.constraint_policy
        → (c' : Cache I E C D A) × (on_insert t
              (record c { items = insert_or_assign c.items k item })
              k
              item
            ≡ ok c')
          × Stored c k item c'
          × (used c'.constraint_policy ≡ used c.constraint_policy + weight item)
    unfolding on_insert
    on_insert_lem missing room =
        let (i', step_i, good') =
          laws.insertion.notify-Good c.insertion_policy (inserted k item) v.good in
        let (e', step_e, inv', held) =
          laws.eviction.on_insert_lem c.eviction_policy k item v.inv measured
            (ground (arith, v.tracked k)) in
        let (n', step_n, used', limit') =
          laws.constraint.on_insert_lem c.constraint_policy k item room bounded in
        let sum = total-insert dec laws.data_map (λ e. weight e.1) c.items k item missing in
        (
          record c {
            insertion_policy = i';
            eviction_policy = e';
            constraint_policy = n';
            items = insert_or_assign c.items k item;
          },
          rw (step_i, step_e, step_n),
          record {
            valid = record {
              coherent = record {
                good = good';
                inv = inv';
                tracked = λ j. ground (
                  arith,
                  held j,
                  v.tracked j,
                  laws.data_map.find-insert_or_assign c.items k j item,
                );
                accounted = omega (arith, v.accounted, sum);
                small = omega arith;
                measured = measured_after;
              };
              within = omega arith;
              bounded = omega arith;
            };
            limit_same = limit';
            contents = λ j. laws.data_map.find-insert_or_assign c.items k j item;
          },
          used',
        )

    pub on_update_lem :
        (old : Item V)
        → find c.items k ≡ some old
        → used c.constraint_policy - weight old + weight item ≤ limit c.constraint_policy
        → (c' : Cache I E C D A) × (on_update t
              (record c { items = insert_or_assign c.items k item })
              k
              old
              item
            ≡ ok c')
          × Stored c k item c'
    unfolding on_update
    on_update_lem old here room =
        let (i', step_i, good') =
          laws.insertion.notify-Good c.insertion_policy (updated k old item) v.good in
        let (e', step_e, inv', held) =
          laws.eviction.on_update_lem c.eviction_policy k old item v.inv measured
            (ground (arith, v.tracked k)) in
        let fits = weight-le-used laws {c = c} k old v here in
        let old_measured = v.measured k old here in
        let (n', step_n, used', limit') =
          laws.constraint.on_update_lem c.constraint_policy k old item fits room bounded
            old_measured.1 measured.1 (ground arith) in
        let sum = total-assign dec laws.data_map (λ e. weight e.1) c.items k old item here in
        (
          record c {
            insertion_policy = i';
            eviction_policy = e';
            constraint_policy = n';
            items = insert_or_assign c.items k item;
          },
          rw (step_i, step_e, step_n),
          record {
            valid = record {
              coherent = record {
                good = good';
                inv = inv';
                tracked = λ j. ground (
                  arith,
                  held j,
                  v.tracked j,
                  v.tracked k,
                  laws.data_map.find-insert_or_assign c.items k j item,
                );
                accounted = omega (arith, v.accounted, sum, fits);
                small = omega arith;
                measured = measured_after;
              };
              within = omega arith;
              bounded = omega arith;
            };
            limit_same = limit';
            contents = λ j. laws.data_map.find-insert_or_assign c.items k j item;
          },
        )

    -- Whichever of the two it is.
    pub insert_or_update_lem :
        ((old : Item V)
          → find c.items k ≡ some old
          → used c.constraint_policy - weight old + weight item ≤ limit c.constraint_policy)
        → (find c.items k ≡ none
            → used c.constraint_policy + weight item ≤ limit c.constraint_policy)
        → (c' : Cache I E C D A) × (insert_or_update t c k item ≡ ok c') × Stored c k item c'
    unfolding insert_or_update
    insert_or_update_lem over new = elim (Option-cases (find c.items k)) [
      | inl missing ↦
          let (c', run, st, _) = on_insert_lem missing (new missing) in
          (c', rw (missing, insert_or_update) run, st)
      | inr (old, here) ↦
          let (c', run, st) = on_update_lem old here (over old here) in
          (c', rw (here, insert_or_update) run, st)
    ]
