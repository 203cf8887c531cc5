-- ===== src/Cache/Insertion/Insert.antt =====
-- What `insert` does, on all its branches.
use cachemere.Common.{
  ℕ, ◌+◌, ◌<◌, ◌≡◌, sym, ◌∙◌, ◌⊎◌, inl, inr, ite, true, false, none, some, List, ◌++◌, arith, ok,
  Option-cases, leb→le, contains, if◌then◌else◌,
}
use cachemere.Item.{Item, size_mod}
use cachemere.Cache.{Cache, Template}
use cachemere.Cache.Events.{new_item}
use cachemere.Cache.Operations
use cachemere.Cache.Operations.{insert}
use cachemere.Cache.Invariant.{Contract}
use cachemere.Cache.Evictions.{Evicted, IsMinimal, keys, Last, Last-weaken}
use cachemere.Cache.Evictions.Insert.{
  IsOutranked, IsPreferred, IsFull, IsRefusedNow, IsWelcome, check_insert_lem,
}
use cachemere.Cache.Evictions.Replace.{check_replace_lem}
use cachemere.Cache.Insertion.{
  Valid, HasRoom, Stored, new_item-measured, on_insert_lem, insert_or_update_lem,
}
use cachemere.Cache.Insertion.Fits.{replaced_fits, added_fits}

module _ {K V I E C D A R : Type 0} {dec : Discrete K} {t : Template K V I E C D A R}
    {Good : I → Type 0} {Inv : E → Type 0} {weight : Item V → ℕ} {used limit : C → ℕ}
    (laws : Contract dec t Good Inv weight used limit) where
  open t use {eviction.{victims}, data_map.{find}}

  -- Why the item comes in. The insertion policy wants `k`, in place of each of the victims `es`, and
  -- the last of these had to go: for an old key the constraint did not admit the new item before, and
  -- for a new one the limit would be passed with that victim.
  abbrev pub IsJustified : Cache I E C D A → K → V → List (K × Item V) → Cache I E C D A → Type 0
  IsJustified c k v es c' =
      ((old : Item V) × (find c.items k ≡ some old)
        × IsPreferred laws c k es
        × IsMinimal laws (IsRefusedNow laws k old (new_item t k v)) c es)
      ⊎ ((find c.items k ≡ none)
          × IsWelcome laws c k (new_item t k v) es
          × Last laws (λ e. limit c.constraint_policy < used c'.constraint_policy + weight e) es)

  -- The first victims `es` of `c` are gone, and `v` is stored under `k`.
  pub record Inserted (c : Cache I E C D A) (k : K) (v : V) (es : List (K × Item V))
      (c' : Cache I E C D A) : Type 0 where
    pub valid : Valid laws c'
    pub limit_same : limit c'.constraint_policy ≡ limit c.constraint_policy
    pub order : (rest : List K) × (victims c.eviction_policy ≡ keys laws es ++ rest)
    pub justified : IsJustified c k v es c'
    pub contents :
        (j : K)
        → find c'.items j
          ≡ ite
              (dec k j)
              (some (new_item t k v))
              (if contains dec j (keys laws es) then none else find c.items j)

  -- The reasons to refuse `v`.
  abbrev pub IsRefused : Cache I E C D A → K → V → Type 0
  IsRefused c k v =
      ((find c.items k ≡ none)
        × (((t.constraint.can_add c.constraint_policy k (new_item t k v) ≡ true)
              × (t.insertion.should_add c.insertion_policy k ≡ ok false))
            ⊎ IsOutranked laws (IsFull laws k (new_item t k v)) c k))
      ⊎ (((old : Item V) × (find c.items k ≡ some old)
            × IsOutranked laws (IsRefusedNow laws k old (new_item t k v)) c k)
          ⊎ (limit c.constraint_policy < weight (new_item t k v)))

  Stored-Inserted :
      (c : Cache I E C D A) (k : K) (v : V) (es : List (K × Item V)) (mid c' : Cache I E C D A)
      → Evicted laws c es mid
      → Stored laws mid k (new_item t k v) c'
      → IsJustified c k v es c'
      → Inserted c k v es c'
  Stored-Inserted c k v es mid c' ev st justified = record {
    justified = justified;
    valid = st.valid;
    limit_same = st.limit_same ∙ ev.limit_same;
    order = (victims mid.eviction_policy, ev.order);
    contents = λ j. rw (st.contents j, ev.contents j);
  }

  -- On a key that is there.
  insert_old :
      (c : Cache I E C D A) (k : K) (v : V) (old : Item V)
      → Valid laws c
      → HasRoom laws c k v
      → find c.items k ≡ some old
      → ((insert dec t c k v ≡ ok (c, false)) × IsRefused c k v)
        ⊎ ((es : List (K × Item V)) × (c' : Cache I E C D A) × (insert dec t c k v ≡ ok (c', true))
            × Inserted c k v es c')
  unfolding insert
  insert_old c k v old valid room here =
      let measured = new_item-measured laws c k v room in
      let old_measured = valid.coherent.measured k old here in
      elim (check_replace_lem laws c k old (new_item t k v) valid here room.sums measured.1
        (ground arith)) [
          | inl (refused, inl outranked) ↦
              inl (rw (here, refused, insert), inr (inl (old, here, outranked)))
          | inl (refused, inr large) ↦ inl (rw (here, refused, insert), inr (inr large))
          | inr (es, mid, accepted, ev, wanted, needed, fits) ↦
              let room' : limit mid.constraint_policy + weight (new_item t k v) < size_mod =
                omega (arith, ev.limit_same, room.sums) in
              let (c', stored, st) =
                insert_or_update_lem laws mid k (new_item t k v) ev.coherent (omega (arith, room'))
                  measured
                  (λ old' here'.
                    replaced_fits laws c k v old old' es mid valid room here ev here' fits)
                  (λ gone. added_fits laws c k v old es mid valid room here ev gone fits) in
              inr (
                es,
                c',
                rw (here, accepted, stored, insert),
                Stored-Inserted c k v es mid c' ev st (inl (old, here, wanted, needed)),
              )
        ]

  reason :
      (c : Cache I E C D A) (k : K) (v : V)
      → find c.items k ≡ none
      → (((t.constraint.can_add c.constraint_policy k (new_item t k v) ≡ true)
            × (t.insertion.should_add c.insertion_policy k ≡ ok false))
          ⊎ IsOutranked laws (IsFull laws k (new_item t k v)) c k)
        ⊎ (limit c.constraint_policy < weight (new_item t k v))
      → IsRefused c k v
  reason c k v missing (inl unwanted) = inl (missing, unwanted)
  reason c k v missing (inr large) = inr (inr large)

  -- On a key that is not there.
  insert_new :
      (c : Cache I E C D A) (k : K) (v : V)
      → Valid laws c
      → HasRoom laws c k v
      → find c.items k ≡ none
      → ((insert dec t c k v ≡ ok (c, false)) × IsRefused c k v)
        ⊎ ((es : List (K × Item V)) × (c' : Cache I E C D A) × (insert dec t c k v ≡ ok (c', true))
            × Inserted c k v es c')
  unfolding insert Operations.contains
  insert_new c k v valid room missing =
      let measured = new_item-measured laws c k v room in
      elim (check_insert_lem laws c k (new_item t k v) valid room.sums) [
        | inl (refused, why) ↦ inl (rw (missing, refused, insert), reason c k v missing why)
        | inr (es, mid, accepted, ev, wanted, fits, last) ↦
            let gone : find mid.items k ≡ none = ground (arith, ev.contents k) in
            let room' : limit mid.constraint_policy + weight (new_item t k v) < size_mod =
              omega (arith, ev.limit_same, room.sums) in
            let enough = leb→le _ _ (
              sym (
                laws.constraint.can_add_lem mid.constraint_policy k (new_item t k v)
                  (omega (arith, ev.freed, ev.limit_same, valid.within)) room')
              ∙ fits) in
            let (c', stored, st, used') =
              on_insert_lem laws mid k (new_item t k v) ev.coherent (omega (arith, room')) measured
                gone enough in
            inr (
              es,
              c',
              rw (missing, accepted, gone, stored, insert),
              Stored-Inserted c k v es mid c' ev st (
                  inr (
                    missing,
                    wanted,
                    Last-weaken laws _ _ (λ e h. omega (arith, used', ev.limit_same, h)) es last,
                  )),
            )
      ]

  -- `insert` on a valid cache, of an item whose sizes do not wrap, fails no assertion. It answers
  -- `false` and leaves the cache as it was, and then the insertion policy does not want a new key
  -- that there is room for; or, where the first victims would go, all of them less wanted than the
  -- key, and the item still not be admitted, it prefers the next victim to the key; or the item
  -- alone is over the limit. Or it answers `true`, and then the cache is valid, so within its
  -- constraint, the value is stored under its key, some first victims of the eviction policy are
  -- gone, in its order, and every other key has the item that it had. Then the insertion policy
  -- said that it wants the key: by `should_add` if it is new and there was room for it, and else by
  -- `should_replace` for each of the victims; and the last of the evictions was needed, since the
  -- constraint did not admit the item before it.
  pub insert_lem :
      (c : Cache I E C D A) (k : K) (v : V)
      → Valid laws c
      → HasRoom laws c k v
      → ((insert dec t c k v ≡ ok (c, false)) × IsRefused c k v)
        ⊎ ((es : List (K × Item V)) × (c' : Cache I E C D A) × (insert dec t c k v ≡ ok (c', true))
            × Inserted c k v es c')
  insert_lem c k v valid room = elim (Option-cases (find c.items k)) [
    | inl missing ↦ insert_new c k v valid room missing
    | inr (old, here) ↦ insert_old c k v old valid room here
  ]
