-- ===== src/Cache/History/Answers.antt =====
-- What it takes to answer a command, and what an answer is, against Cache/History/Spec.
use mathlib.Core.Option
use cachemere.Common.{ℕ, ◌+◌, ◌%◌, ◌≤◌, ◌<◌, ◌≡◌, List, [], ◌∷◌, arith, ok}
use cachemere.Item.{Item, size_mod}
use cachemere.Cache.{Cache, Template}
use cachemere.Cache.Events.{new_item}
use cachemere.Cache.Invariant.{Contract}
use cachemere.Cache.Insertion.{Valid, HasRoom}
use cachemere.Cache.Lifecycle.Import.{AllHaveRoom}
use cachemere.Cache.History.{
  Command, inserts, finds, asks, removes, clears, retains, bounds, imports, collects, visits,
  counts, resizes, Reply, step,
}
use cachemere.Cache.History.Spec.{Contents, IsAllowed}

module _ {K V I E C D A R : Type 0} (t : Template K V I E C D A R) where
  -- The map that a cache stands for.
  abbrev pub contents : Cache I E C D A → Contents K V
  contents c k = Option.map (λ item. item.value) (t.data_map.find c.items k)

module _ {K V I E C D A R : Type 0} (t : Template K V I E C D A R) (weight : Item V → ℕ) where
  -- The sizes of an item do not wrap, not with a limit of `most` either.
  pub record IsSmall (most : ℕ) (k : K) (v : V) : Type 0 where
    pub sizes : t.measure_key k % size_mod + t.measure_value v % size_mod < size_mod
    pub sums : most + weight (new_item t k v) < size_mod

  abbrev pub AllSmall : ℕ → List (K × V) → Type 0
  AllSmall most [] = Unit
  AllSmall most ((k, v) ∷ rest) = IsSmall most k v × AllSmall most rest

module _ {K V I E C D A R : Type 0} (t : Template K V I E C D A R) (weight : Item V → ℕ)
    (CanRemove : Type 0) where
  -- The command stores small items only, keeps the limit at `most` or less, and removes keys only if
  -- the eviction policy can let go of them.
  abbrev pub IsTame : ℕ → Command K V → Type 0
  IsTame most (inserts k v) = IsSmall t weight most k v
  IsTame most (bounds bound) = bound ≤ most
  IsTame most (imports collection) = AllSmall t weight most collection
  IsTame most (finds k) = Unit
  IsTame most (asks k) = Unit
  IsTame most (removes k) = CanRemove
  IsTame most clears = Unit
  IsTame most (retains p) = CanRemove
  IsTame most (collects container) = Unit
  IsTame most visits = Unit
  IsTame most counts = Unit
  IsTame most (resizes window_size) = Unit

module _ {K V I E C D A R : Type 0} {dec : Discrete K} {t : Template K V I E C D A R}
    {Good : I → Type 0} {Inv : E → Type 0} {weight : Item V → ℕ} {used limit : C → ℕ}
    (laws : Contract dec t Good Inv weight used limit) where
  pub record IsReady (most : ℕ) (c : Cache I E C D A) : Type 0 where
    pub valid : Valid laws c
    pub limited : limit c.constraint_policy ≤ most

  pub roomy :
      (most : ℕ) (c : Cache I E C D A) (k : K) (v : V)
      → IsReady most c
      → IsSmall t weight most k v
      → HasRoom laws c k v
  roomy most c k v ready small = record {
    sizes = small.sizes;
    sums = omega (arith, small.sums, ready.limited);
  }

  pub all_roomy :
      (most : ℕ) (c : Cache I E C D A) (collection : List (K × V))
      → IsReady most c
      → AllSmall t weight most collection
      → AllHaveRoom laws c collection
  all_roomy most c [] ready small = tt
  all_roomy most c ((k, v) ∷ rest) ready small =
      (roomy most c k v ready small.0, all_roomy most c rest ready small.1)

  -- One command.
  pub record IsAnswered (most : ℕ) (c : Cache I E C D A) (command : Command K V) : Type 0 where
    pub after : Cache I E C D A
    pub reply : Reply K V
    pub ran : step dec t command c ≡ ok (after, reply)
    pub ready : IsReady most after
    pub allowed : IsAllowed dec (contents t c) (contents t after) command reply
