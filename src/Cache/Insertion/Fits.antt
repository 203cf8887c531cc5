-- ===== src/Cache/Insertion/Fits.antt =====
-- What the constraint policy has admitted is within the limit.
use cachemere.Common.{
  ℕ, ◌+◌, ◌-◌, ◌≤◌, ◌≡◌, sym, ◌∙◌, true, false, none, some, List, arith, ok, leb→le, contains,
}
use cachemere.Item.{Item}
use cachemere.Cache.{Cache, Template}
use cachemere.Cache.Events.{new_item}
use cachemere.Cache.Admission.{can_replace_now}
use cachemere.Cache.Invariant.{Contract}
use cachemere.Cache.Invariant.Removal.{weight-le-used}
use cachemere.Cache.Evictions.{Evicted, keys}
use cachemere.Cache.Insertion.{Valid, HasRoom, new_item-measured}

module _ {K V I E C D A R : Type 0} {dec : Discrete K} {t : Template K V I E C D A R}
    {Good : I → Type 0} {Inv : E → Type 0} {weight : Item V → ℕ} {used limit : C → ℕ}
    (laws : Contract dec t Good Inv weight used limit) where
  open t use {eviction.{victims}, data_map.{find}}

  -- With the evictions made, `can_replace` says that the new item fits in place of the old one.
  pub replaced_fits :
      (c : Cache I E C D A) (k : K) (v : V) (old old' : Item V) (es : List (K × Item V))
      (mid : Cache I E C D A)
      → Valid laws c
      → HasRoom laws c k v
      → find c.items k ≡ some old
      → Evicted laws c es mid
      → find mid.items k ≡ some old'
      → can_replace_now dec t k old
          (new_item t k v)
          mid.constraint_policy
          (contains dec k (keys laws es))
        ≡ ok true
      → used mid.constraint_policy - weight old' + weight (new_item t k v)
        ≤ limit mid.constraint_policy
  replaced_fits c k v old old' es mid valid room here ev here' fits =
      let kept : contains dec k (keys laws es) ≡ false = ground (arith, ev.contents k) in
      let same : old ≡ old' = ground (arith, ev.contents k) in
      let (sized, exact) = new_item-measured laws c k v room in
      let (sized_old, exact_old) = valid.coherent.measured k old here in
      let answer =
        laws.constraint.can_replace_lem mid.constraint_policy k old (new_item t k v)
          (omega (arith, ev.freed, ev.limit_same, valid.within))
          (omega (arith, ev.limit_same, room.sums))
          (weight-le-used laws {c = mid} k old ev.coherent (rw same here')) exact_old exact
          (sized_old ∙ sym sized) in
      let asked : can_replace_now dec t k old (new_item t k v) mid.constraint_policy false
          ≡ ok true =
        rw kept at fits in
      rw (← same) (leb→le _ _ (cc (answer, asked)))

  -- With the old item evicted, `can_add` says that the new one fits.
  pub added_fits :
      (c : Cache I E C D A) (k : K) (v : V) (old : Item V) (es : List (K × Item V))
      (mid : Cache I E C D A)
      → Valid laws c
      → HasRoom laws c k v
      → find c.items k ≡ some old
      → Evicted laws c es mid
      → find mid.items k ≡ none
      → can_replace_now dec t k old
          (new_item t k v)
          mid.constraint_policy
          (contains dec k (keys laws es))
        ≡ ok true
      → used mid.constraint_policy + weight (new_item t k v) ≤ limit mid.constraint_policy
  added_fits c k v old es mid valid room here ev gone fits =
      let dropped : contains dec k (keys laws es) ≡ true = ground (arith, ev.contents k) in
      let answer =
        laws.constraint.can_add_lem mid.constraint_policy k (new_item t k v)
          (omega (arith, ev.freed, ev.limit_same, valid.within))
          (omega (arith, ev.limit_same, room.sums)) in
      let asked : can_replace_now dec t k old (new_item t k v) mid.constraint_policy true
          ≡ ok true =
        rw dropped at fits in
      leb→le _ _ (cc (answer, asked))
