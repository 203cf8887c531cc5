-- ===== src/Cache/References.antt =====
-- cache.hpp: `insertion_policy`, `eviction_policy` and `constraint_policy` give the client a reference
-- to a policy. Each function here is what a client does to the policy through the reference.
use cachemere.Common.{ℕ, ◌≤◌, ◌<◌, ◌≡◌, ◌∙◌, contains}
use cachemere.Item.{Item, size_mod}
use cachemere.Cache.{Cache, Template}
use cachemere.Cache.Invariant.{Contract}
use cachemere.Cache.Insertion.{Valid}

module _ {I E C D A : Type 0} where
  pub through_insertion_policy : (I → I) → Cache I E C D A → Cache I E C D A
  through_insertion_policy f c = record c { insertion_policy = f c.insertion_policy }

  pub through_eviction_policy : (E → E) → Cache I E C D A → Cache I E C D A
  through_eviction_policy f c = record c { eviction_policy = f c.eviction_policy }

  pub through_constraint_policy : (C → C) → Cache I E C D A → Cache I E C D A
  through_constraint_policy f c = record c { constraint_policy = f c.constraint_policy }

module _ {K V I E C D A R : Type 0} {dec : Discrete K} {t : Template K V I E C D A R}
    {Good : I → Type 0} {Inv : E → Type 0} {weight : Item V → ℕ} {used limit : C → ℕ}
    (laws : Contract dec t Good Inv weight used limit) where
  open t use {eviction.{victims}}

  -- The insertion policy may become any one that is well formed.
  pub through_insertion_policy-Valid :
      (f : I → I) (c : Cache I E C D A)
      → Valid laws c
      → Good (f c.insertion_policy)
      → Valid laws (through_insertion_policy f c)
  unfolding through_insertion_policy
  through_insertion_policy-Valid f c v good = record {
    coherent = record {
      good = good;
      inv = v.coherent.inv;
      tracked = v.coherent.tracked;
      accounted = v.coherent.accounted;
      small = v.coherent.small;
      measured = v.coherent.measured;
    };
    within = v.within;
    bounded = v.bounded;
  }

  -- The eviction policy may become any well-formed one with the same victims, in another order.
  pub through_eviction_policy-Valid :
      (f : E → E) (c : Cache I E C D A)
      → Valid laws c
      → Inv (f c.eviction_policy)
      → ((k : K)
          → contains dec k (victims (f c.eviction_policy))
            ≡ contains dec k (victims c.eviction_policy))
      → Valid laws (through_eviction_policy f c)
  unfolding through_eviction_policy
  through_eviction_policy-Valid f c v inv same = record {
    coherent = record {
      good = v.coherent.good;
      inv = inv;
      tracked = λ k. same k ∙ v.coherent.tracked k;
      accounted = v.coherent.accounted;
      small = v.coherent.small;
      measured = v.coherent.measured;
    };
    within = v.within;
    bounded = v.bounded;
  }

  -- The constraint may get any limit that its sum does not pass.
  pub through_constraint_policy-Valid :
      (f : C → C) (c : Cache I E C D A)
      → Valid laws c
      → used (f c.constraint_policy) ≡ used c.constraint_policy
      → used c.constraint_policy ≤ limit (f c.constraint_policy)
      → limit (f c.constraint_policy) < size_mod
      → Valid laws (through_constraint_policy f c)
  unfolding through_constraint_policy
  through_constraint_policy-Valid f c v same within bounded = record {
    coherent = record {
      good = v.coherent.good;
      inv = v.coherent.inv;
      tracked = v.coherent.tracked;
      accounted = same ∙ v.coherent.accounted;
      small = rw same v.coherent.small;
      measured = v.coherent.measured;
    };
    within = rw same within;
    bounded = bounded;
  }
