-- ===== src/Tests/Views.antt =====
-- The theorem on views: keys are numbers, and a view is one in tens and units.
use mathlib.Core.List.{lookup}
use cachemere.Common.{
  ℕ, ◌+◌, ◌*◌, ◌≡◌, refl, sym, ◌∙◌, inl, inr, Bool, true, Option, none, some, List, [], ◌∷◌, arith,
  Outcome, ok, fault, ◌==◌, if◌then◌else◌, Bool-cases, ℕ_discrete,
}
use cachemere.Common.Maps.Assoc.{Assoc, assoc_map}
use cachemere.Common.Maps.Views.{ViewMap, AreConsistent, ViewMapLaws}
use cachemere.Hash.{multi_hash, transparent_eq}
use cachemere.Item.{Item, make_item}
use cachemere.Filter.BitSet.{Bits, function_bits}
use cachemere.Constraint.Memory
use cachemere.Constraint.Memory.{ConstraintMemory, construct, can_add}
use cachemere.Eviction.SegmentedLru
use cachemere.Eviction.SegmentedLru.{EvictionSegmentedLru, emplace, initial}
use cachemere.Cache.Events.{new_item, insert_or_update, on_insert, notify_all}
use cachemere.Cache.{Template, Cache}
use cachemere.Cache.Operations.{create, find, contains, import}
use cachemere.Cache.Views.{ViewHandlers, contains_by_view, find_by_view}
use cachemere.Cache.Views.Lookups.{StandsFor}
use cachemere.Presets.{memory_tiny_lfu_cache}
use cachemere.Presets.Views.{hash_either, eq_view, memory_tiny_lfu-views}
use cachemere.Insertion.TinyLfu.{InsertionTinyLfu, on_cache_miss}
use cachemere.Tests.{samples}
use cachemere.Tests.Presets.{new_filters}

module _ {A : Type 0} (p : ℕ → Bool) where
  abbrev search_entry : List (ℕ × A) → Option (ℕ × A)
  search_entry [] = none
  search_entry (e ∷ l) = if p e.0 then some e else search_entry l

  search_entry-some :
      (l : List (ℕ × A)) (k : ℕ) (a : A)
      → search_entry l ≡ some (k, a)
      → (p k ≡ true) × (lookup ℕ_discrete k l ≡ some a)
  unfolding lookup
  search_entry-some [] k a h = absurd (ground (arith, h))
  search_entry-some (e ∷ l) k a h = elim (Bool-cases (p e.0)) [
    | inl hit ↦ let same : some e ≡ some (k, a) = sym (rw hit refl) ∙ h in ground (arith, hit, same)
    | inr miss ↦
        let later = search_entry-some l k a (sym (rw miss refl) ∙ h) in ground (arith, miss, later)
  ]

  search_entry-none :
      (l : List (ℕ × A)) (k : ℕ) → search_entry l ≡ none → p k ≡ true → lookup ℕ_discrete k l ≡ none
  unfolding lookup
  search_entry-none [] k h e = refl
  search_entry-none (d ∷ l) k h e = elim (Bool-cases (p d.0)) [
    | inl hit ↦ absurd (ground (arith, hit, h))
    | inr miss ↦
        let later = search_entry-none l k (sym (rw miss refl) ∙ h) e in
        ground (arith, miss, later, e)
  ]

abbrev Digits : Type 0
Digits = ℕ × ℕ

abbrev key_hash : ℕ → ℕ
key_hash k = k

abbrev digits_hash : Digits → ℕ
digits_hash q = 10 * q.0 + q.1

abbrev key_eq : ℕ → ℕ → Bool
key_eq a b = a == b

abbrev digits_eq : Digits → ℕ → Bool
digits_eq q k = 10 * q.0 + q.1 == k

abbrev by_digits : ViewMap Digits ℕ (Item ℕ) (Assoc ℕ_discrete (Item ℕ))
by_digits = record { find_view = λ m q. search_entry (digits_eq q) m.items }

by_digits-ViewMapLaws :
    ViewMapLaws
      (hash_either key_hash digits_hash)
      (eq_view key_eq digits_eq)
      (assoc_map ℕ_discrete)
      by_digits
unfolding transparent_eq
by_digits-ViewMapLaws = record {
  find_view-some = λ m q k a. search_entry-some (digits_eq q) m.items k a;
  find_view-none = λ same m q k h e. search_entry-none (digits_eq q) m.items k h e;
}

digits-AreConsistent : AreConsistent (hash_either key_hash digits_hash) (eq_view key_eq digits_eq)
unfolding transparent_eq multi_hash
digits-AreConsistent k q e = ground (arith, e)

twelve : StandsFor (eq_view key_eq digits_eq) (1, 2) 12
unfolding transparent_eq
twelve j = (λ e. ground (arith, e), λ e. ground (arith, e))

abbrev keyed :
    Template ℕ ℕ
      (InsertionTinyLfu Bits)
      (EvictionSegmentedLru ℕ (Assoc ℕ_discrete ℕ))
      ConstraintMemory
      (Assoc ℕ_discrete (Item ℕ))
      (List ℕ)
      (List ℕ)
keyed =
    memory_tiny_lfu_cache (λ v. v) (λ k. 1) (assoc_map ℕ_discrete) samples (assoc_map ℕ_discrete)
      function_bits (λ k. hash_either key_hash digits_hash (inl k)) new_filters.0 1

abbrev handlers :
    ViewHandlers Digits
      (InsertionTinyLfu Bits)
      (EvictionSegmentedLru ℕ (Assoc ℕ_discrete ℕ))
      ConstraintMemory
handlers = record {
  insertion = some (on_cache_miss function_bits (λ q. hash_either key_hash digits_hash (inr q)));
  eviction = none;
  constraint = none;
}

abbrev DigitsCache : Type 0
DigitsCache =
    Cache (InsertionTinyLfu Bits) (EvictionSegmentedLru ℕ (Assoc ℕ_discrete ℕ)) ConstraintMemory
      (Assoc ℕ_discrete (Item ℕ)) (List ℕ)

abbrev vacant : DigitsCache
vacant = create ℕ_discrete keyed 100

abbrev after : Outcome DigitsCache → DigitsCache
after (ok c) = c
after (fault e) = vacant

-- A cache with one item, under 12.
abbrev loaded : DigitsCache
loaded = after (import ℕ_discrete keyed ((12, 5) ∷ []) vacant)

loaded-twelve : contains ℕ_discrete keyed loaded 12 ≡ true
unfolding contains import create insert_or_update new_item make_item on_insert construct can_add
    Memory.on_insert SegmentedLru.on_insert emplace initial lookup notify_all ℕ_discrete
loaded-twelve = refl

memory_tiny_lfu-views_example :
    (find_by_view keyed by_digits handlers loaded (1, 2) ≡ find ℕ_discrete keyed loaded 12)
    × (contains_by_view keyed by_digits handlers loaded (1, 2)
        ≡ contains ℕ_discrete keyed loaded 12)
memory_tiny_lfu-views_example =
    memory_tiny_lfu-views ℕ_discrete (λ v. v) (λ k. 1) (assoc_map ℕ_discrete) by_digits samples
      (assoc_map ℕ_discrete) function_bits new_filters.0 1 key_hash digits_hash key_eq digits_eq
      loaded (1, 2) 12 by_digits-ViewMapLaws digits-AreConsistent twelve
