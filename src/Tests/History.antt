-- ===== src/Tests/History.antt =====
-- The refinement theorem at a history of the test cache.
use cachemere.Common.{ℕ, ◌≡◌, ◌≤◌, List, [], ◌∷◌, arith, ok, ltb, ℕ_discrete}
use cachemere.Item.{make_item}
use cachemere.Cache.Events.{new_item}
use cachemere.Cache.History.{
  Command, inserts, finds, asks, removes, clears, retains, bounds, imports, collects, visits,
  counts, resizes, Reply, run,
}
use cachemere.Cache.History.Spec.{AreAllowed}
use cachemere.Cache.History.Answers.{contents, IsReady, IsSmall}
use cachemere.Cache.History.Refinement.{AreTame, run-AreAllowed}
use cachemere.Tests.{
  NumberCache, numbers, numbers-Contract, numbers-RemovalLaws, two_items, two_items-Valid,
  two_items-limit,
}

abbrev commands : List (Command ℕ ℕ)
commands =
    inserts 3 60
    ∷ finds 3
    ∷ asks 1
    ∷ removes 2
    ∷ retains (λ k v. ltb v 50)
    ∷ bounds 60
    ∷ imports ((4, 20) ∷ [])
    ∷ collects ((9, 9) ∷ [])
    ∷ visits
    ∷ counts
    ∷ resizes 10
    ∷ clears
    ∷ []

small : (k v : ℕ) → v ≤ 100 → IsSmall numbers (λ item. item.total_size) 100 k v
unfolding new_item make_item
small k v le = record { sizes = omega arith; sums = omega arith }

commands-AreTame : AreTame numbers (λ item. item.total_size) Unit 100 commands
commands-AreTame = (
  small 3 60 (omega arith),
  (
    tt,
    (
      tt,
      (tt, (tt, (omega arith, ((small 4 20 (omega arith), tt), (tt, (tt, (tt, (tt, (tt, tt))))))))),
    ),
  ),
)

run-AreAllowed_example :
    (c' : NumberCache) × (replies : List (Reply ℕ ℕ)) × (run ℕ_discrete numbers commands two_items
      ≡ ok (c', replies))
    × IsReady numbers-Contract 100 c'
    × AreAllowed ℕ_discrete (contents numbers two_items) (contents numbers c') commands replies
run-AreAllowed_example =
    run-AreAllowed numbers-Contract Unit (λ u. numbers-RemovalLaws) 100 commands two_items
      (omega arith) (record { valid = two_items-Valid; limited = omega (arith, two_items-limit) })
      commands-AreTame
