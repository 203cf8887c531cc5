-- ===== src/Cache/Removals.antt =====
-- `remove` and `retain`, for eviction policies that can let go of any key.
use mathlib.Core.List.{lookup}
use cachemere.Common.{
  ℕ, ◌≡◌, refl, ◌∙◌, inl, inr, ite, Bool, none, some, Option, List, [], ◌∷◌, arith, ok, Bool-cases,
  Option-cases, if◌then◌else◌, DistinctKeys,
}
use cachemere.Item.{Item}
use cachemere.Policy.Laws.{RemovalLaws}
use cachemere.Cache.{Cache, Template}
use cachemere.Cache.Events.{remove_entry}
use cachemere.Cache.Operations.{remove, retain_from, retain, contains}
use cachemere.Cache.Invariant.{Contract}
use cachemere.Cache.Invariant.Removal.{remove_entry_lem}
use cachemere.Cache.Insertion.{Valid}

module _ {K V I E C D A R : Type 0} {dec : Discrete K} {t : Template K V I E C D A R}
    {Good : I → Type 0} {Inv : E → Type 0} {weight : Item V → ℕ} {used limit : C → ℕ}
    (laws : Contract dec t Good Inv weight used limit)
    (removal : RemovalLaws dec t.eviction Inv) where
  open t use {data_map.{find, entries, erase}}

  -- `c'` is valid, and its entries are those of `c` as `keep` filters them.
  pub record Filtered (c : Cache I E C D A) (keep : K → Option (Item V) → Option (Item V))
      (c' : Cache I E C D A) : Type 0 where
    pub valid : Valid laws c'
    pub limit_same : limit c'.constraint_policy ≡ limit c.constraint_policy
    pub contents : (j : K) → find c'.items j ≡ keep j (find c.items j)

  remove_any :
      (c : Cache I E C D A) (k : K) (item : Item V)
      → Valid laws c
      → find c.items k ≡ some item
      → (c' : Cache I E C D A) × (remove_entry t c (k, item) ≡ ok c')
        × Filtered c (λ j found. ite (dec k j) none found) c'
  remove_any c k item v here =
      let (e', step, inv', dropped) =
        removal.on_evict_any_lem c.eviction_policy k item v.coherent.inv
          (ground (arith, v.coherent.tracked k)) in
      let (c', run, removed, same) =
        remove_entry_lem laws c k item e' v.coherent here step inv' dropped in
      (
        c',
        run,
        record {
          valid = record {
            coherent = removed.coherent;
            within = omega (arith, removed.used_less, removed.limit_same, v.within);
            bounded = omega (arith, removed.limit_same, v.bounded);
          };
          limit_same = removed.limit_same;
          contents = λ j. rw removed.items (laws.data_map.find-erase c.items k j);
        },
      )

  -- `remove` on a valid cache whose eviction policy can evict any key that it holds fails no
  -- assertion. It answers whether the key was there, as `contains` tells, and leaves a valid cache
  -- with the same limit and the same entries but for that key.
  pub remove_lem :
      (c : Cache I E C D A) (k : K)
      → Valid laws c
      → (c' : Cache I E C D A) × (remove dec t c k ≡ ok (c', contains dec t c k))
        × Filtered c (λ j found. ite (dec k j) none found) c'
  unfolding remove contains
  remove_lem c k v = elim (Option-cases (find c.items k)) [
    | inl missing ↦ (
      c,
      rw (missing, remove, contains),
      record { valid = v; limit_same = refl; contents = λ j. ground arith },
    )
    | inr (item, here) ↦
        let (c', run, filtered) = remove_any c k item v here in
        (c', rw (here, run, remove, contains), filtered)
  ]

  -- What `retain` leaves of an entry.
  abbrev pub keep_if : (K → V → Bool) → K → Option (Item V) → Option (Item V)
  keep_if p k none = none
  keep_if p k (some item) = if p k item.value then some item else none

  -- What is left under a key after the loop over `rest`.
  abbrev after_visit : (K → V → Bool) → K → Option (Item V) → Option (Item V) → Option (Item V)
  after_visit p k none found = found
  after_visit p k (some item) found = keep_if p k (some item)

  retain_from_lem :
      (p : K → V → Bool) (rest : List (K × Item V)) (c : Cache I E C D A)
      → Valid laws c
      → DistinctKeys dec rest
      → ((j : K) (item : Item V) → lookup dec j rest ≡ some item → find c.items j ≡ some item)
      → (c' : Cache I E C D A) × (retain_from dec t p rest c ≡ ok c')
        × Filtered c (λ j found. after_visit p j (lookup dec j rest) found) c'
  unfolding retain_from lookup
  retain_from_lem p [] c v distinct present =
      (c, refl, record { valid = v; limit_same = refl; contents = λ j. refl })
  retain_from_lem p ((k, item) ∷ rest) c v distinct present = elim (Bool-cases (p k item.value)) [
    | inl stays ↦
        let (c', run, f) =
          retain_from_lem p rest c v distinct.1 (λ j found here. present j found (ground arith)) in
        (
          c',
          rw (stays, retain_from) run,
          record {
            valid = f.valid;
            limit_same = f.limit_same;
            contents = λ j. ground (arith, f.contents j, present j item, distinct.0);
          },
        )
    | inr goes ↦
        let (mid, drop, f) = remove_any c k item v (present k item (ground arith)) in
        let (c', run, g) =
          retain_from_lem p rest mid f.valid distinct.1
            (λ j found here. ground (arith, f.contents j, present j found, distinct.0)) in
        (
          c',
          rw (goes, drop, retain_from) run,
          record {
            valid = g.valid;
            limit_same = g.limit_same ∙ f.limit_same;
            contents = λ j. ground (arith, f.contents j, g.contents j, distinct.0);
          },
        )
  ]

  -- `retain` on a valid cache whose eviction policy can evict any key that it holds fails no
  -- assertion, and leaves a valid cache with the same limit and exactly the entries that satisfy
  -- the predicate.
  pub retain_lem :
      (p : K → V → Bool) (c : Cache I E C D A)
      → Valid laws c
      → (c' : Cache I E C D A) × (retain dec t p c ≡ ok c') × Filtered c (keep_if p) c'
  unfolding retain
  retain_lem p c v =
      let (c', run, f) =
        retain_from_lem p (entries c.items) c v (laws.data_map.entries-DistinctKeys c.items)
          (λ j item here. laws.data_map.find-entries c.items j ∙ here) in
      (
        c',
        run,
        record {
          valid = f.valid;
          limit_same = f.limit_same;
          contents = λ j. ground (arith, f.contents j, laws.data_map.find-entries c.items j);
        },
      )
