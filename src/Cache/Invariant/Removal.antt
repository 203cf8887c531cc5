-- ===== src/Cache/Invariant/Removal.antt =====
-- One eviction: it keeps the policies and the data map in agreement.
use cachemere.Common.{ℕ, ◌+◌, ◌≤◌, ◌≡◌, refl, ite, false, some, arith, ok, contains}
use cachemere.Common.Maps.Totals.{total-erase}
use cachemere.Item.{Item}
use cachemere.Policy.{notify, evicted}
use cachemere.Cache.{Cache, Template}
use cachemere.Cache.Events.{remove_entry}
use cachemere.Cache.Invariant.{Contract, IsCoherent}

module _ {K V I E C D A R : Type 0} {dec : Discrete K} {t : Template K V I E C D A R}
    {Good : I → Type 0} {Inv : E → Type 0} {weight : Item V → ℕ} {used limit : C → ℕ}
    (laws : Contract dec t Good Inv weight used limit) where
  open t use {
    eviction.{victims, handlers as eviction_handlers},
    constraint.{handlers as constraint_handlers},
    data_map.{find, entries, erase},
  }

  abbrev Coherent : Cache I E C D A → Type 0
  Coherent = IsCoherent dec t Good Inv weight used limit

  -- What the eviction of the entry of `k` leaves behind.
  pub record Removed (c : Cache I E C D A) (k : K) (item : Item V) (c' : Cache I E C D A)
      : Type 0 where
    pub coherent : Coherent c'
    pub items : c'.items ≡ erase c.items k
    pub constraint :
        notify constraint_handlers (evicted k item) c.constraint_policy ≡ ok c'.constraint_policy
    pub used_less : used c'.constraint_policy + weight item ≡ used c.constraint_policy
    pub limit_same : limit c'.constraint_policy ≡ limit c.constraint_policy

  pub weight-le-used :
      {c : Cache I E C D A} (k : K) (item : Item V)
      → Coherent c
      → find c.items k ≡ some item
      → weight item ≤ used c.constraint_policy
  weight-le-used {c} k item v h =
      omega (arith, v.accounted, total-erase dec laws.data_map (λ e. weight e.1) c.items k item h)

  -- Where the eviction policy lets go of exactly the key `k`, `remove_entry` succeeds.
  pub remove_entry_lem :
      (c : Cache I E C D A) (k : K) (item : Item V) (e' : E)
      → Coherent c
      → find c.items k ≡ some item
      → notify eviction_handlers (evicted k item) c.eviction_policy ≡ ok e'
      → Inv e'
      → ((j : K)
          → contains dec j (victims e')
            ≡ ite (dec k j) false (contains dec j (victims c.eviction_policy)))
      → (c' : Cache I E C D A) × (remove_entry t c (k, item) ≡ ok c')
        × Removed c k item c'
        × (c'.eviction_policy ≡ e')
  unfolding remove_entry
  remove_entry_lem c k item e' v h step inv' dropped =
      let (i', insertion_step, good') =
        laws.insertion.notify-Good c.insertion_policy (evicted k item) v.good in
      let (n', constraint_step, used', limit') =
        laws.constraint.on_evict_lem c.constraint_policy k item (weight-le-used k item v h)
          v.small in
      let c' : Cache I E C D A = record c {
        insertion_policy = i';
        eviction_policy = e';
        constraint_policy = n';
        items = erase c.items k;
      } in
      let sum = total-erase dec laws.data_map (λ e. weight e.1) c.items k item h in
      (
        c',
        rw (insertion_step, step, constraint_step),
        record {
          coherent = record {
            good = good';
            inv = inv';
            tracked =
                λ j. ground (arith, dropped j, v.tracked j, laws.data_map.find-erase c.items k j);
            accounted = omega (arith, v.accounted, sum);
            small = omega (arith, v.small);
            measured = λ j item' found.
                v.measured j item' (ground (arith, laws.data_map.find-erase c.items k j));
          };
          items = refl;
          constraint = constraint_step;
          used_less = omega (arith, v.accounted, sum);
          limit_same = limit';
        },
        refl,
      )
