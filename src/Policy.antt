-- ===== src/Policy.antt =====
-- The interfaces by which `Cache` uses its policies, as its class template does. A policy is a
-- state with operations. Its event handlers are optional: include/cachemere/detail/traits.h asks
-- whether a policy defines one, and `notify` calls it then.
use cachemere.Common.{ℕ, Bool, List, Option, none, some, Outcome, ok}
use cachemere.Item.{Item}
pub mod Laws

pub data Event (K V : Type 0) : Type 0 where
  inserted : K → Item V → Event K V
  updated : K → Item V → Item V → Event K V
  hit : K → Item V → Event K V
  missed : K → Event K V
  evicted : K → Item V → Event K V

pub record Handlers (K V S : Type 0) : Type 0 where
  pub on_insert : Option (S → K → Item V → Outcome S)
  pub on_update : Option (S → K → Item V → Item V → Outcome S)
  pub on_cache_hit : Option (S → K → Item V → Outcome S)
  pub on_cache_miss : Option (S → K → Outcome S)
  pub on_evict : Option (S → K → Item V → Outcome S)

-- A handler is called if the policy has it; otherwise the policy stays as it is.
abbrev call_if_defined : {F S : Type 0} → Option F → (F → Outcome S) → S → Outcome S
call_if_defined none call s = ok s
call_if_defined (some f) call s = call f

abbrev pub notify : {K V S : Type 0} → Handlers K V S → Event K V → S → Outcome S
notify h (inserted k item) s = call_if_defined h.on_insert (λ f. f s k item) s
notify h (updated k old new) s = call_if_defined h.on_update (λ f. f s k old new) s
notify h (hit k item) s = call_if_defined h.on_cache_hit (λ f. f s k item) s
notify h (missed k) s = call_if_defined h.on_cache_miss (λ f. f s k) s
notify h (evicted k item) s = call_if_defined h.on_evict (λ f. f s k item) s

-- `initial` is the default constructor.
pub record InsertionPolicy (K V I : Type 0) : Type 0 where
  pub initial : I
  pub clear : I → I
  pub should_add : I → K → Outcome Bool
  pub should_replace : I → K → K → Outcome Bool
  pub handlers : Handlers K V I

-- `victims` are the keys that the iterator walks over, from `victim_begin` to `victim_end`.
pub record EvictionPolicy (K V E : Type 0) : Type 0 where
  pub initial : E
  pub clear : E → E
  pub victims : E → List K
  pub handlers : Handlers K V E

-- The constructor and `update` take one number, the bound.
pub record ConstraintPolicy (K V C : Type 0) : Type 0 where
  pub construct : ℕ → C
  pub clear : C → C
  pub can_add : C → K → Item V → Bool
  pub can_replace : C → K → Item V → Item V → Outcome Bool
  pub is_satisfied : C → Bool
  pub update : C → ℕ → C
  pub handlers : Handlers K V C
