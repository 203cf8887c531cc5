-- ===== src/Cache/Admission.antt =====
-- cache.hpp: `check_insert` and `check_replace`, which decide whether an item comes in and evict
-- what it replaces. Both plan the evictions on a copy of the constraint policy, and carry them out
-- once the copy is satisfied.
use cachemere.Common.{
  Bool, true, false, ite, Option, none, some, List, [], ◌∷◌, ◌++◌, Outcome, ok, fault,
  assertion_failed, ◌>>=◌, if◌then◌else◌,
}
use cachemere.Item.{Item}
use cachemere.Policy.{evicted, notify}
use cachemere.Cache.{Cache, Template}
use cachemere.Cache.Events.{remove_entry}

module _ {K V I E C D A R : Type 0} (dec : Discrete K) (t : Template K V I E C D A R) where
  open t use {
    insertion.{should_add, should_replace},
    eviction.{victims},
    constraint.{can_add, can_replace, handlers as constraint_handlers},
    data_map.{find},
  }

  -- `for (auto key_and_item : keys_to_evict) remove(key_and_item);`
  unfoldable pub remove_all : List (K × Item V) → Cache I E C D A → Outcome (Cache I E C D A)
  remove_all [] c = ok c
  remove_all (e ∷ es) c = do c' ← remove_entry t c e; remove_all es c'

  -- The loop of `check_insert` over the victims that are left: the constraint copy and
  -- `keys_to_evict` at its end, or `none` if a victim is better than the candidate.
  unfoldable pub plan_insert :
      Cache I E C D A
      → K
      → Item V
      → List K
      → C
      → List (K × Item V)
      → Outcome (Option (C × List (K × Item V)))
  plan_insert c k item [] copy keys_to_evict = ok (some (copy, keys_to_evict))
  plan_insert c k item (victim ∷ rest) copy keys_to_evict = elim (can_add copy k item) [
    | true ↦ ok (some (copy, keys_to_evict))
    | false ↦ elim (find c.items victim) [
      | none ↦ fault assertion_failed
      | some victim_item ↦ do
        better ← should_replace c.insertion_policy victim k
        elim better [
          | false ↦ ok none
          | true ↦ do
            copy' ← notify constraint_handlers (evicted victim victim_item) copy
            plan_insert c k item rest copy' (keys_to_evict ++ (victim, victim_item) ∷ [])
        ]
    ]
  ]

  unfoldable pub check_insert : Cache I E C D A → K → Item V → Outcome (Cache I E C D A × Bool)
  check_insert c k item = elim (can_add c.constraint_policy k item) [
    | true ↦ do accepted ← should_add c.insertion_policy k; ok (c, accepted)
    | false ↦ do
      plan ← plan_insert c k item (victims c.eviction_policy) c.constraint_policy []
      elim plan [
        | none ↦ ok (c, false)
        | some (copy, keys_to_evict) ↦ elim (can_add copy k item) [
          | false ↦ ok (c, false)
          | true ↦ do c' ← remove_all keys_to_evict c; ok (c', true)
        ]
      ]
  ]

  -- The closure `can_replace`: once the original key is among the evictions, the new item is an
  -- insertion.
  abbrev pub can_replace_now : K → Item V → Item V → C → Bool → Outcome Bool
  can_replace_now k old new copy true = ok (can_add copy k new)
  can_replace_now k old new copy false = can_replace copy k old new

  -- The loop of `check_replace`, with `evicted_original_key` as its state too.
  unfoldable pub plan_replace :
      Cache I E C D A
      → K
      → Item V
      → Item V
      → List K
      → C
      → Bool
      → List (K × Item V)
      → Outcome (Option (C × Bool × List (K × Item V)))
  plan_replace c k old new [] copy evicted_original keys_to_evict =
      ok (some (copy, evicted_original, keys_to_evict))
  plan_replace c k old new (victim ∷ rest) copy evicted_original keys_to_evict = do
    enough ← can_replace_now k old new copy evicted_original
    elim enough [
      | true ↦ ok (some (copy, evicted_original, keys_to_evict))
      | false ↦ elim (find c.items victim) [
        | none ↦ fault assertion_failed
        | some victim_item ↦ do
          better ← should_replace c.insertion_policy victim k
          elim better [
            | false ↦ ok none
            | true ↦ do
              copy' ← notify constraint_handlers (evicted victim victim_item) copy
              plan_replace c k old new rest copy'
                  (if evicted_original then true else ite (dec victim k) true false)
                  (keys_to_evict ++ (victim, victim_item) ∷ [])
          ]
      ]
    ]

  unfoldable pub check_replace :
      Cache I E C D A → K → Item V → Item V → Outcome (Cache I E C D A × Bool)
  check_replace c k old new = do
    fits ← can_replace c.constraint_policy k old new
    elim fits [
      | true ↦ ok (c, true)
      | false ↦ do
        plan ← plan_replace c k old new (victims c.eviction_policy) c.constraint_policy false []
        elim plan [
          | none ↦ ok (c, false)
          | some (copy, evicted_original, keys_to_evict) ↦ do
            enough ← can_replace_now k old new copy evicted_original
            elim enough [
              | false ↦ ok (c, false)
              | true ↦ do c' ← remove_all keys_to_evict c; ok (c', true)
            ]
        ]
    ]
