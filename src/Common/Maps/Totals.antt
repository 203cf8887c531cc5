-- ===== src/Common/Maps/Totals.antt =====
-- The sum of a measure over a map's entries, and how the operations of the map change it.
use Prim.Native.Nat.{ℕ, ◌+◌}
use mathlib.Core.Path.{◌≡◌, refl, sym, ap, ◌∙◌}
use mathlib.Core.List.{List, [], ◌∷◌, lookup}
use mathlib.Core.Bool.{true}
use mathlib.Core.Option.{none, some}
use native.Mathlib.Omega.{arith}
use cachemere.Common.Lists.{
  total, is_nonempty, DistinctKeys, erase_key, lookup-erase_key, erase_key-DistinctKeys,
}
use cachemere.Common.Maps.{HashMap, HashMapLaws}

module _ {K A : Type 0} (dec : Discrete K) (w : K × A → ℕ) where
  total-erase_key :
      (k : K) (a : A) (l : List (K × A))
      → lookup dec k l ≡ some a
      → total w l ≡ w (k, a) + total w (erase_key dec k l)
  unfolding lookup
  total-erase_key k a [] h = cc
  total-erase_key k a (e ∷ l) h = ground (arith, total-erase_key k a l)

  lookup-none-nil : (l : List (K × A)) → ((k : K) → lookup dec k l ≡ none) → l ≡ []
  unfolding lookup
  lookup-none-nil [] h = refl
  lookup-none-nil (e ∷ l) h = ground (arith, h e.0)

  -- Two lists of entries with the same contents have the same sum.
  pub total-ext :
      (l l' : List (K × A))
      → DistinctKeys dec l
      → DistinctKeys dec l'
      → ((k : K) → lookup dec k l ≡ lookup dec k l')
      → total w l ≡ total w l'
  unfolding lookup
  total-ext [] l' d d' h = rw (lookup-none-nil l' (λ k. ground (arith, h k)))
  total-ext (e ∷ l) l' d d' h = omega (
    arith,
    total-erase_key e.0 e.1 l' here,
    total-ext l (erase_key dec e.0 l') d.1 (erase_key-DistinctKeys dec e.0 l' d') rest,
  )
    where
      here : lookup dec e.0 l' ≡ some e.1
      here = ground (arith, h e.0)

      rest : (k : K) → lookup dec k l ≡ lookup dec k (erase_key dec e.0 l')
      rest k = ground (arith, h k, lookup-erase_key dec e.0 k l' d', d.0)

module _ {K A M : Type 0} (dec : Discrete K) {h : HashMap K A M} (laws : HashMapLaws dec h)
    (w : K × A → ℕ) where
  open h use {find, insert_or_assign, erase, entries}

  -- Erasing an entry takes its measure off the sum.
  pub total-erase :
      (m : M) (k : K) (a : A)
      → find m k ≡ some a
      → total w (entries m) ≡ w (k, a) + total w (entries (erase m k))
  total-erase m k a e = omega (
    arith,
    total-erase_key dec w k a (entries m) (rw (← laws.find-entries m k) e),
    total-ext dec w (entries (erase m k)) (erase_key dec k (entries m))
        (laws.entries-DistinctKeys (erase m k))
        (erase_key-DistinctKeys dec k (entries m) (laws.entries-DistinctKeys m)) same,
  )
    where
      same :
          (j : K) → lookup dec j (entries (erase m k)) ≡ lookup dec j (erase_key dec k (entries m))
      same j = ground (
        arith,
        laws.find-entries (erase m k) j,
        laws.find-erase m k j,
        laws.find-entries m j,
        lookup-erase_key dec k j (entries m) (laws.entries-DistinctKeys m),
      )

  -- A new entry adds its measure.
  pub total-insert :
      (m : M) (k : K) (a : A)
      → find m k ≡ none
      → total w (entries (insert_or_assign m k a)) ≡ w (k, a) + total w (entries m)
  unfolding lookup
  total-insert m k a e =
      total-ext dec w (entries (insert_or_assign m k a)) ((k, a) ∷ entries m)
        (laws.entries-DistinctKeys (insert_or_assign m k a))
        (ground (arith, laws.find-entries m k), laws.entries-DistinctKeys m)
        (λ j. ground (
          arith,
          laws.find-entries (insert_or_assign m k a) j,
          laws.find-insert_or_assign m k j a,
          laws.find-entries m j,
        ))

  -- An entry that is overwritten gives its measure for that of the new one.
  pub total-assign :
      (m : M) (k : K) (old a : A)
      → find m k ≡ some old
      → total w (entries (insert_or_assign m k a)) + w (k, old) ≡ w (k, a) + total w (entries m)
  total-assign m k old a e = omega (
    arith,
    total-erase m k old e,
    total-erase (insert_or_assign m k a) k a (ground (arith, laws.find-insert_or_assign m k k a)),
    total-ext dec w (entries (erase (insert_or_assign m k a) k)) (entries (erase m k))
        (laws.entries-DistinctKeys (erase (insert_or_assign m k a) k))
        (laws.entries-DistinctKeys (erase m k)) same,
  )
    where
      same :
          (j : K)
          → lookup dec j (entries (erase (insert_or_assign m k a) k))
            ≡ lookup dec j (entries (erase m k))
      same j = ground (
        arith,
        laws.find-entries (erase (insert_or_assign m k a) k) j,
        laws.find-entries (erase m k) j,
        laws.find-erase (insert_or_assign m k a) k j,
        laws.find-erase m k j,
        laws.find-insert_or_assign m k j a,
      )

  -- Without entries the sum is 0.
  pub total-none : (m : M) → ((k : K) → find m k ≡ none) → total w (entries m) ≡ 0
  total-none m h =
      ap (total w) (lookup-none-nil dec w (entries m) (λ k. sym (laws.find-entries m k) ∙ h k))

-- A map that has a key is not empty.
module _ {K A M : Type 0} {dec : Discrete K} {h : HashMap K A M} (laws : HashMapLaws dec h) where
  nonempty_of_lookup :
      (k : K) (a : A) (l : List (K × A)) → lookup dec k l ≡ some a → is_nonempty l ≡ true
  unfolding lookup
  nonempty_of_lookup k a [] here = cc
  nonempty_of_lookup k a (x ∷ l) here = refl

  pub entries-is_nonempty :
      (m : M) (k : K) (a : A) → h.find m k ≡ some a → is_nonempty (h.entries m) ≡ true
  entries-is_nonempty m k a e =
      nonempty_of_lookup k a (h.entries m) (sym (laws.find-entries m k) ∙ e)
