-- ===== src/Cache/Evictions/Insert.antt =====
-- What `check_insert` decides, and which evictions it carries out.
use cachemere.Common.{
  All, All-snoc, contains, ℕ, ◌+◌, ◌<◌, ◌≡◌, refl, sym, ◌⊎◌, inl, inr, true, false, none, some,
  List, [], ◌∷◌, ◌++◌, arith, ok, Bool-cases, leb-false→lt, ◌∙◌,
}
use cachemere.Item.{Item, size_mod}
use cachemere.Cache.{Cache, Template}
use cachemere.Cache.Admission.{plan_insert, check_insert, can_replace_now}
use cachemere.Cache.Invariant.{Contract, IsValid}
use cachemere.Cache.Evictions.{
  keys, Evicted, Last, Last-append, victim_found, no_victims, Evicted-none, evicted_step,
}

module _ {K V I E C D A R : Type 0} {dec : Discrete K} {t : Template K V I E C D A R}
    {Good : I → Type 0} {Inv : E → Type 0} {weight : Item V → ℕ} {used limit : C → ℕ}
    (laws : Contract dec t Good Inv weight used limit) where
  open t use {
    insertion.{should_add, should_replace},
    eviction.{victims},
    constraint.{can_add},
    data_map.{find},
  }

  -- With `victim` still there, `item` would not fit.
  abbrev pub IsNeeded : Item V → C → Item V → Type 0
  IsNeeded item n victim = limit n < used n + weight victim + weight item

  -- The insertion policy has been asked about each of the victims, and prefers `k` to all of them.
  abbrev pub IsPreferred : Cache I E C D A → K → List (K × Item V) → Type 0
  IsPreferred c k = All (λ e. should_replace c.insertion_policy e.0 k ≡ ok true)

  -- With the first victims `es` gone, all of them less wanted than `k`, the constraint still does
  -- not admit it, as `Refused` says, and the insertion policy prefers the next victim to `k`.
  abbrev pub IsOutranked :
      (List (K × Item V) → Cache I E C D A → Type 0) → Cache I E C D A → K → Type 0
  IsOutranked Refused c k =
      (es : List (K × Item V)) × (cur : Cache I E C D A) × (victim : K) × (rest : List K) × Evicted
        laws c es cur
      × (victims cur.eviction_policy ≡ victim ∷ rest)
      × Refused es cur
      × IsPreferred c k es
      × (should_replace c.insertion_policy victim k ≡ ok false)

  -- The constraint has no room for `item`.
  abbrev pub IsFull : K → Item V → List (K × Item V) → Cache I E C D A → Type 0
  IsFull k item es cur = can_add cur.constraint_policy k item ≡ false

  -- The constraint does not admit `new` under `k` where `old` was.
  abbrev pub IsRefusedNow : K → Item V → Item V → List (K × Item V) → Cache I E C D A → Type 0
  IsRefusedNow k old new es cur =
      can_replace_now dec t k old new cur.constraint_policy (contains dec k (keys laws es))
      ≡ ok false

  -- The insertion policy wants `k`: as a new key where nothing has to go for it, and else in place of
  -- every victim.
  abbrev pub IsWelcome : Cache I E C D A → K → Item V → List (K × Item V) → Type 0
  IsWelcome c k item es =
      ((can_add c.constraint_policy k item ≡ true)
        × (es ≡ [])
        × (should_add c.insertion_policy k ≡ ok true))
      ⊎ ((can_add c.constraint_policy k item ≡ false) × IsPreferred c k es)

  -- The loop gives up, or it stops at the state that its evictions lead to, with all victims gone
  -- or room for the item.
  plan_insert_lem :
      (c : Cache I E C D A) (k : K) (item : Item V) (rest : List K) (es : List (K × Item V))
      (cur : Cache I E C D A)
      → IsValid dec t Good Inv weight used limit c
      → limit c.constraint_policy + weight item < size_mod
      → Evicted laws c es cur
      → Last laws (IsNeeded item cur.constraint_policy) es
      → victims cur.eviction_policy ≡ rest
      → IsPreferred c k es
      → ((plan_insert dec t c k item rest cur.constraint_policy es ≡ ok none)
          × IsOutranked (IsFull k item) c k)
        ⊎ ((fs : List (K × Item V)) × (end : Cache I E C D A) × (plan_insert dec t c k item rest
                cur.constraint_policy es
              ≡ ok (some (end.constraint_policy, fs)))
            × Evicted laws c fs end
            × Last laws (IsNeeded item end.constraint_policy) fs
            × IsPreferred c k fs
            × ((victims end.eviction_policy ≡ []) ⊎ (can_add end.constraint_policy k item ≡ true)))
  unfolding plan_insert
  plan_insert_lem c k item [] es cur v room ev last front wanted =
      inr (es, cur, refl, ev, last, wanted, inl front)
  plan_insert_lem c k item (victim ∷ rest) es cur v room ev last front wanted =
      elim (Bool-cases (can_add cur.constraint_policy k item)) [
        | inl enough ↦ inr (es, cur, rw (enough, plan_insert), ev, last, wanted, inr enough)
        | inr more ↦
            let (stored, here) = victim_found laws cur victim rest ev.coherent front in
            let found : find c.items victim ≡ some stored = ground (arith, ev.contents victim) in
            let (better, answer) =
              laws.insertion.should_replace_total c.insertion_policy victim k v.coherent.good in
            elim (Bool-cases better) [
              | inr worse ↦ inl (
                rw (more, found, answer, worse, plan_insert),
                (es, cur, victim, rest, ev, front, more, wanted, rw (answer, worse)),
              )
              | inl improves ↦
                  let (cur', ev', step, left, freed, _) =
                    evicted_step laws c cur es victim rest stored ev front found in
                  let asked =
                    laws.constraint.can_add_lem cur.constraint_policy k item
                      (omega (arith, ev.freed, ev.limit_same, v.within))
                      (omega (arith, ev.limit_same, room)) in
                  let over = leb-false→lt _ _ (sym asked ∙ more) in
                  let last' =
                    Last-append laws (IsNeeded item cur'.constraint_policy) es (victim, stored)
                      (omega (arith, over, freed, ev.limit_same, ev'.limit_same)) in
                  rw (more, found, answer, improves, step, plan_insert)
                    (plan_insert_lem c k item rest (es ++ (victim, stored) ∷ []) cur' v room ev'
                      last' left
                      (All-snoc (λ e. should_replace c.insertion_policy e.0 k ≡ ok true) es
                        (victim, stored) wanted (rw (answer, improves))))
            ]
      ]

  -- An item that does not fit with all victims gone is larger than the limit.
  too_large :
      (c : Cache I E C D A) (k : K) (item : Item V) (es : List (K × Item V)) (end : Cache I E C D A)
      → IsValid dec t Good Inv weight used limit c
      → limit c.constraint_policy + weight item < size_mod
      → Evicted laws c es end
      → can_add end.constraint_policy k item ≡ false
      → (victims end.eviction_policy ≡ []) ⊎ (can_add end.constraint_policy k item ≡ true)
      → limit c.constraint_policy < weight item
  too_large c k item es end v room ev hopeless (inr fits) = absurd (cc)
  too_large c k item es end v room ev hopeless (inl gone) =
      let (_, empty) = no_victims laws end ev.coherent gone in
      let asked =
        laws.constraint.can_add_lem end.constraint_policy k item (omega (arith, empty))
          (omega (arith, ev.limit_same, room)) in
      let over = leb-false→lt _ _ (sym asked ∙ hopeless) in
      omega (arith, over, empty, ev.limit_same)

  -- `check_insert` on a valid cache, for an item whose weight does not wrap with the limit, fails
  -- no assertion. It answers `false` and changes nothing, because the item fits and the insertion
  -- policy does not want it, or because, with the first victims gone, all of them less wanted, it
  -- still does not fit and the insertion policy prefers the next victim, or because the item is
  -- larger than the limit. Or it answers `true`: the item fits and the insertion policy wants it,
  -- or it did not fit, and the first victims are evicted until it does, the last of them because it
  -- had to, the insertion policy having preferred the item to each.
  pub check_insert_lem :
      (c : Cache I E C D A) (k : K) (item : Item V)
      → IsValid dec t Good Inv weight used limit c
      → limit c.constraint_policy + weight item < size_mod
      → ((check_insert dec t c k item ≡ ok (c, false))
          × ((((can_add c.constraint_policy k item ≡ true)
                  × (should_add c.insertion_policy k ≡ ok false))
                ⊎ IsOutranked (IsFull k item) c k)
              ⊎ (limit c.constraint_policy < weight item)))
        ⊎ ((es : List (K × Item V)) × (c' : Cache I E C D A) × (check_insert dec t c k item
              ≡ ok (c', true))
            × Evicted laws c es c'
            × IsWelcome c k item es
            × (can_add c'.constraint_policy k item ≡ true)
            × Last laws (IsNeeded item c'.constraint_policy) es)
  unfolding check_insert
  check_insert_lem c k item v room = elim (Bool-cases (can_add c.constraint_policy k item)) [
    | inl fits ↦
        let (accepted, answer) =
          laws.insertion.should_add_total c.insertion_policy k v.coherent.good in
        elim (Bool-cases accepted) [
          | inr refused ↦
              inl (rw (fits, answer, refused, check_insert), inl (inl (fits, rw (answer, refused))))
          | inl welcome ↦ inr (
            [],
            c,
            rw (fits, answer, welcome, check_insert),
            Evicted-none laws c v.coherent,
            inl (fits, refl, rw (answer, welcome)),
            fits,
            tt,
          )
        ]
    | inr full ↦
        elim (plan_insert_lem c k item (victims c.eviction_policy) [] c v room
          (Evicted-none laws c v.coherent) tt refl tt) [
            | inl (worse, why) ↦ inl (rw (full, worse, check_insert), inl (inr why))
            | inr (es, c', plan, ev, last, wanted, why) ↦
                elim (Bool-cases (can_add c'.constraint_policy k item)) [
                  | inr hopeless ↦ inl (
                    rw (full, plan, hopeless, check_insert),
                    inr (too_large c k item es c' v room ev hopeless why),
                  )
                  | inl fits ↦ inr (
                    es,
                    c',
                    rw (full, plan, fits, ev.run, check_insert),
                    ev,
                    inr (full, wanted),
                    fits,
                    last,
                  )
                ]
          ]
  ]
