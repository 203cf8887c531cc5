-- ===== src/Cache/Lookups.antt =====
-- Reading the cache: `contains`, `find`, and what they tell the policies.
use mathlib.Core.Option
use cachemere.Common.{
  ℕ, ◌%◌, ◌^◌, ◌≡◌, refl, ◌∙◌, inl, inr, none, some, arith, ok, Option-cases, if◌then◌else◌,
}
use cachemere.Item.{Item}
use cachemere.Policy.{hit, missed}
use cachemere.Cache.{Cache, Template}
use cachemere.Cache.Events.{on_cache_hit, on_cache_miss}
use cachemere.Cache.Operations
use cachemere.Cache.Operations.{find}
use cachemere.Cache.Invariant.{Contract}
use cachemere.Cache.Insertion.{Valid}

module _ {K V I E C D A R : Type 0} {dec : Discrete K} {t : Template K V I E C D A R}
    {Good : I → Type 0} {Inv : E → Type 0} {weight : Item V → ℕ} {used limit : C → ℕ}
    (laws : Contract dec t Good Inv weight used limit) where
  open t use {data_map.{find as find_item}, accumulator.{add}}

  -- A lookup changes no entry, and moves each rolling mean on by one sample.
  pub record Read (c : Cache I E C D A) (sample bytes : ℕ) (c' : Cache I E C D A) : Type 0 where
    pub valid : Valid laws c'
    pub items : c'.items ≡ c.items
    pub limit_same : limit c'.constraint_policy ≡ limit c.constraint_policy
    pub window : c'.statistics_window_size ≡ c.statistics_window_size
    pub hits : c'.hit_rate_acc ≡ add c.hit_rate_acc sample
    pub byte_hits : c'.byte_hit_rate_acc ≡ add c.byte_hit_rate_acc bytes

  on_cache_hit_lem :
      (c : Cache I E C D A) (k : K) (item : Item V)
      → Valid laws c
      → find_item c.items k ≡ some item
      → (c' : Cache I E C D A) × (on_cache_hit t c k item ≡ ok c')
        × Read c 1 (item.value_size % 2 ^ 32) c'
  unfolding on_cache_hit
  on_cache_hit_lem c k item v here =
      let (i', step_i, good') =
        laws.insertion.notify-Good c.insertion_policy (hit k item) v.coherent.good in
      let (e', step_e, inv', held) =
        laws.eviction.on_cache_hit_lem c.eviction_policy k item v.coherent.inv
          (v.coherent.measured k item here) (ground (arith, v.coherent.tracked k)) in
      let (e'', step_e', inv'', held') =
        laws.eviction.on_cache_hit_lem e' k item inv' (v.coherent.measured k item here)
          (ground (arith, held k, v.coherent.tracked k)) in
      (
        record c {
          hit_rate_acc = add c.hit_rate_acc 1;
          byte_hit_rate_acc = add c.byte_hit_rate_acc (item.value_size % 2 ^ 32);
          insertion_policy = i';
          eviction_policy = e'';
        },
        rw (step_i, step_e, step_e'),
        record {
          valid = record {
            coherent = record {
              good = good';
              inv = inv'';
              tracked = λ j. held' j ∙ held j ∙ v.coherent.tracked j;
              accounted = v.coherent.accounted;
              small = v.coherent.small;
              measured = v.coherent.measured;
            };
            within = v.within;
            bounded = v.bounded;
          };
          items = refl;
          limit_same = refl;
          window = refl;
          hits = refl;
          byte_hits = refl;
        },
      )

  on_cache_miss_lem :
      (c : Cache I E C D A) (k : K)
      → Valid laws c
      → (c' : Cache I E C D A) × (on_cache_miss t c k ≡ ok c') × Read c 0 0 c'
  unfolding on_cache_miss
  on_cache_miss_lem c k v =
      let (i', step_i, good') =
        laws.insertion.notify-Good c.insertion_policy (missed k) v.coherent.good in
      let (e', step_e, inv', held) =
        laws.eviction.on_cache_miss_lem c.eviction_policy k v.coherent.inv in
      let (n', step_n, used', limit') = laws.constraint.on_cache_miss_lem c.constraint_policy k in
      (
        record c {
          hit_rate_acc = add c.hit_rate_acc 0;
          byte_hit_rate_acc = add c.byte_hit_rate_acc 0;
          insertion_policy = i';
          eviction_policy = e';
          constraint_policy = n';
        },
        rw (step_i, step_e, step_n),
        record {
          valid = record {
            coherent = record {
              good = good';
              inv = inv';
              tracked = λ j. held j ∙ v.coherent.tracked j;
              accounted = used' ∙ v.coherent.accounted;
              small = rw used' v.coherent.small;
              measured = v.coherent.measured;
            };
            within = rw (used', limit') v.within;
            bounded = rw limit' v.bounded;
          };
          items = refl;
          limit_same = limit';
          window = refl;
          hits = refl;
          byte_hits = refl;
        },
      )

  -- The sample for the mean of the bytes: the value's size, as a `uint32_t`, or 0 for a miss.
  abbrev pub bytes_of : Option.Option (Item V) → ℕ
  bytes_of none = 0
  bytes_of (some item) = item.value_size % 2 ^ 32

  -- `find` on a valid cache fails no assertion and answers the value that is stored under the key,
  -- if there is one. The cache stays valid with the same entries, limit and window, and the rolling
  -- means get 1 and the value's size on a hit, 0 and 0 on a miss, as `contains` tells.
  pub find_lem :
      (c : Cache I E C D A) (k : K)
      → Valid laws c
      → (c' : Cache I E C D A) × (find dec t c k
          ≡ ok (c', Option.map (λ item. item.value) (find_item c.items k)))
        × Read c
            (if Operations.contains dec t c k then 1 else 0)
            (bytes_of (find_item c.items k))
            c'
  unfolding find Operations.contains
  find_lem c k v = elim (Option-cases (find_item c.items k)) [
    | inl missing ↦
        let (c', run, read) = on_cache_miss_lem c k v in
        (c', rw (missing, run, find), rw (missing, Operations.contains) read)
    | inr (item, here) ↦
        let (c', run, read) = on_cache_hit_lem c k item v here in
        (c', rw (here, run, find), rw (here, Operations.contains) read)
  ]
