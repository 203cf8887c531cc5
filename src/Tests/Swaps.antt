-- ===== src/Tests/Swaps.antt =====
-- The theorem on a store of caches, at two caches that start with the same items.
use cachemere.Common.{All, ℕ, ◌≡◌, ℕ_discrete, List, [], ◌∷◌, arith, ok}
use cachemere.Cache.History.{finds, inserts, Reply}
use cachemere.Cache.History.Answers.{IsSmall}
use cachemere.Cache.Events.{new_item}
use cachemere.Item.{make_item}
use cachemere.Cache.Swaps.{StoreCommand, store_run}
use cachemere.Cache.Swaps.Spec.{AreAllowedIn}
use cachemere.Cache.Swaps.Refinement.{IsTameIn, AllReady, all_contents, store_run-AreAllowed}
use cachemere.Cache.Locks.{on, swaps}
use cachemere.Tests.{
  NumberCache, numbers, numbers-Contract, numbers-RemovalLaws, two_items, two_items-Valid,
  two_items-limit,
}

abbrev pub same_items : ℕ → NumberCache
same_items i = two_items

pub same_items-AllReady : AllReady numbers-Contract 100 same_items
same_items-AllReady i = record { valid = two_items-Valid; limited = omega (arith, two_items-limit) }

abbrev requests : List (StoreCommand ℕ ℕ)
requests = on 0 (inserts 3 60) ∷ swaps 0 1 ∷ on 1 (finds 3) ∷ swaps 1 1 ∷ []

requests-IsTameIn : All (IsTameIn numbers (λ item. item.total_size) Unit 100) requests
unfolding new_item make_item
requests-IsTameIn = (small, (tt, (tt, (tt, tt))))
  where
    small : IsSmall numbers (λ item. item.total_size) 100 3 60
    small = record { sizes = omega arith; sums = omega arith }

store_run-AreAllowed_example :
    (s' : ℕ → NumberCache) × (replies : List (Reply ℕ ℕ)) × (store_run ℕ_discrete numbers requests
        same_items
      ≡ ok (s', replies))
    × AllReady numbers-Contract 100 s'
    × AreAllowedIn ℕ_discrete
        (all_contents numbers same_items)
        (all_contents numbers s')
        requests
        replies
store_run-AreAllowed_example =
    store_run-AreAllowed numbers-Contract Unit (λ u. numbers-RemovalLaws) 100 requests same_items
      (omega arith) same_items-AllReady requests-IsTameIn
