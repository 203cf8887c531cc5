-- ===== src/Cache/Lifecycle.antt =====
-- Construction and `clear`.
pub mod Import
use cachemere.Common.{
  ℕ, ◌<◌, ◌≡◌, refl, sym, ◌∙◌, ap, inl, inr, ite, true, false, none, some, Option, List, [], ◌∷◌,
  ◌++◌, arith, ok, leb→le, Bool-cases,
}
use cachemere.Item.{Item, size_mod}
use cachemere.Cache.{Cache, Template}
use cachemere.Cache.Events.{new_item}
use cachemere.Cache.Operations.{create, clear, import, create_from, swap}
use cachemere.Cache.Invariant.{Contract, IsCoherent}
use cachemere.Cache.Insertion.{Valid, HasRoom, Stored, new_item-measured, insert_or_update_lem}

module _ {K V I E C D A R : Type 0} {dec : Discrete K} {t : Template K V I E C D A R}
    {Good : I → Type 0} {Inv : E → Type 0} {weight : Item V → ℕ} {used limit : C → ℕ}
    (laws : Contract dec t Good Inv weight used limit) where
  open t use {
    eviction.{victims},
    constraint.{can_add},
    data_map.{find, entries, empty},
    accumulator.{make},
  }

  find-empty : (k : K) → find empty k ≡ none
  unfolding mathlib.Core.List.lookup
  find-empty k = rw (laws.data_map.find-entries empty k, laws.data_map.entries-empty)

  -- A cache with no entries and nothing in its policies.
  pub record IsFresh (c : Cache I E C D A) (bound window : ℕ) : Type 0 where
    pub valid : Valid laws c
    pub limit_is : limit c.constraint_policy ≡ bound
    pub vacant : (k : K) → find c.items k ≡ none
    pub victimless : victims c.eviction_policy ≡ []
    pub hits : c.hit_rate_acc ≡ make window
    pub byte_hits : c.byte_hit_rate_acc ≡ make window

  fresh-IsCoherent :
      (c : Cache I E C D A)
      → Good c.insertion_policy
      → Inv c.eviction_policy
      → victims c.eviction_policy ≡ []
      → used c.constraint_policy ≡ 0
      → c.items ≡ empty
      → IsCoherent dec t Good Inv weight used limit c
  fresh-IsCoherent c good inv victimless unused vacant = record {
    good = good;
    inv = inv;
    tracked = λ k. rw (victimless, vacant, find-empty k) refl;
    accounted = rw (unused, vacant, laws.data_map.entries-empty);
    small = omega arith;
    measured = λ k item h. absurd (ground (arith, find-empty k, h, vacant));
  }

  -- A new cache, with a bound below the modulus of `size_t`, is valid, has no entries or victims,
  -- is under that bound, and has new rolling means over a window of 1000.
  pub create_lem : (bound : ℕ) → bound < size_mod → IsFresh (create dec t bound) bound 1000
  unfolding create
  create_lem bound small =
      let (used', limit') = laws.constraint.construct_lem bound in
      record {
        valid = record {
          coherent =
              fresh-IsCoherent (create dec t bound) laws.insertion.initial-Good
                laws.eviction.initial-Inv laws.eviction.victims-initial used' refl;
          within = omega (arith, used');
          bounded = omega (arith, limit');
        };
        limit_is = limit';
        vacant = find-empty;
        victimless = laws.eviction.victims-initial;
        hits = refl;
        byte_hits = refl;
      }

  -- `clear` on a valid cache leaves a valid cache without entries or victims, under the same limit,
  -- with new rolling means over the window of the statistics.
  pub clear_lem :
      (c : Cache I E C D A)
      → Valid laws c
      → IsFresh (clear dec t c) (limit c.constraint_policy) c.statistics_window_size
  unfolding clear
  clear_lem c v =
      let (used', limit') = laws.constraint.clear_lem c.constraint_policy in
      record {
        valid = record {
          coherent =
              fresh-IsCoherent (clear dec t c)
                (laws.insertion.clear-Good c.insertion_policy v.coherent.good)
                (laws.eviction.clear-Inv c.eviction_policy v.coherent.inv)
                (laws.eviction.victims-clear c.eviction_policy) used' refl;
          within = omega (arith, used');
          bounded = omega (arith, limit', v.bounded);
        };
        limit_is = limit';
        vacant = find-empty;
        victimless = laws.eviction.victims-clear c.eviction_policy;
        hits = refl;
        byte_hits = refl;
      }
