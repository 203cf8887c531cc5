-- ===== src/Insertion/Always.antt =====
-- include/cachemere/policy/insertion_always.{h,hpp}: every insertion is accepted.
use cachemere.Common.{Bool, true, none, ◌≡◌, refl, Outcome, ok}
use cachemere.Policy.{Event, inserted, updated, hit, missed, evicted, notify, InsertionPolicy}
use cachemere.Policy.Laws.{InsertionLaws}

-- The class has no data members.
pub data InsertionAlways : Type 0 where
  always : InsertionAlways

pub clear : InsertionAlways → InsertionAlways
clear s = s

module _ {K : Type 0} where
  pub should_add : InsertionAlways → K → Outcome Bool
  should_add s key = ok true

  pub should_replace : InsertionAlways → K → K → Outcome Bool
  should_replace s victim candidate = ok true

module _ {K V : Type 0} where
  -- The policy defines no event handler.
  abbrev pub always_policy : InsertionPolicy K V InsertionAlways
  always_policy = record {
    initial = always;
    clear = clear;
    should_add = should_add;
    should_replace = should_replace;
    handlers = record {
      on_insert = none;
      on_update = none;
      on_cache_hit = none;
      on_cache_miss = none;
      on_evict = none;
    };
  }

  -- Without a state there is nothing to keep well formed.
  pub always-InsertionLaws : InsertionLaws {K = K} {V = V} always_policy (λ s. Unit {0})
  unfolding should_add should_replace
  always-InsertionLaws = record {
    initial-Good = tt;
    clear-Good = λ s g. tt;
    should_add_total = λ s k g. (true, refl);
    should_replace_total = λ s victim candidate g. (true, refl);
    notify-Good = unhandled;
  }
    where
      unhandled :
          (s : InsertionAlways) (e : Event K V)
          → Unit {0}
          → (s' : InsertionAlways) × (notify always_policy.handlers e s ≡ ok s') × Unit {0}
      unhandled s (inserted k item) g = (s, refl, tt)
      unhandled s (updated k old new) g = (s, refl, tt)
      unhandled s (hit k item) g = (s, refl, tt)
      unhandled s (missed k) g = (s, refl, tt)
      unhandled s (evicted k item) g = (s, refl, tt)
