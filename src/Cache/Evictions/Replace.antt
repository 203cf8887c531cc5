-- ===== src/Cache/Evictions/Replace.antt =====
-- What `check_replace` decides, and which evictions it carries out.
use mathlib.Core.List.{map-append}
use cachemere.Common.{
  All-snoc, ℕ, ◌+◌, ◌-◌, ◌<◌, ◌≡◌, refl, ◌⊎◌, inl, inr, ite, Bool, true, false, none, some, List,
  [], ◌∷◌, ◌++◌, arith, ok, Bool-cases, leb, leb-false→lt, contains, contains-append, if◌then◌else◌,
}
use cachemere.Item.{Item, IsExact, size_mod}
use cachemere.Cache.{Cache, Template}
use cachemere.Cache.Admission.{plan_replace, check_replace, can_replace_now}
use cachemere.Cache.Invariant.{Contract, IsValid}
use cachemere.Cache.Invariant.Removal.{weight-le-used}
use cachemere.Cache.Evictions.Insert.{IsOutranked, IsPreferred, IsRefusedNow}
use cachemere.Cache.Evictions.{
  Evicted, IsMinimal, keys, victim_found, no_victims, Evicted-none, evicted_step,
}

module _ {K V I E C D A R : Type 0} {dec : Discrete K} {t : Template K V I E C D A R}
    {Good : I → Type 0} {Inv : E → Type 0} {weight : Item V → ℕ} {used limit : C → ℕ}
    (laws : Contract dec t Good Inv weight used limit) (c : Cache I E C D A) (k : K)
    (old new : Item V) (v : IsValid dec t Good Inv weight used limit c)
    (stored : t.data_map.find c.items k ≡ some old)
    (room : limit c.constraint_policy + weight new < size_mod) (exact : IsExact new)
    (same : old.key_size ≡ new.key_size) where
  open t use {eviction.{victims}, constraint.{can_add, can_replace}, data_map.{find}}

  -- The constraint copy can always be asked, and while the old item is there it answers by the sum
  -- with the new item in its place.
  replace_now_total :
      (es : List (K × Item V)) (cur : Cache I E C D A) (gone : Bool)
      → gone ≡ contains dec k (keys laws es)
      → Evicted laws c es cur
      → (b : Bool) × (can_replace_now dec t k old new cur.constraint_policy gone ≡ ok b)
  replace_now_total es cur true e ev = (can_add cur.constraint_policy k new, refl)
  replace_now_total es cur false e ev =
      let here : find cur.items k ≡ some old = ground (arith, ev.contents k) in
      let exact_old = (v.coherent.measured k old stored).1 in
      (
        leb (used cur.constraint_policy - weight old + weight new) (limit cur.constraint_policy),
        laws.constraint.can_replace_lem cur.constraint_policy k old new
            (omega (arith, v.within, ev.freed, ev.limit_same)) (omega (arith, ev.limit_same))
            (weight-le-used laws k old ev.coherent here) exact_old exact same,
      )

  plan_replace_lem :
      (rest : List K) (es : List (K × Item V)) (cur : Cache I E C D A) (gone : Bool)
      → gone ≡ contains dec k (keys laws es)
      → Evicted laws c es cur
      → victims cur.eviction_policy ≡ rest
      → IsPreferred laws c k es
      → IsMinimal laws (IsRefusedNow laws k old new) c es
      → ((plan_replace dec t c k old new rest cur.constraint_policy gone es ≡ ok none)
          × IsOutranked laws (IsRefusedNow laws k old new) c k)
        ⊎ ((fs : List (K × Item V)) × (end : Cache I E C D A) × (plan_replace dec t c k old new rest
                cur.constraint_policy gone es
              ≡ ok (some (end.constraint_policy, contains dec k (keys laws fs), fs)))
            × Evicted laws c fs end
            × IsPreferred laws c k fs
            × IsMinimal laws (IsRefusedNow laws k old new) c fs
            × ((victims end.eviction_policy ≡ [])
                ⊎ (can_replace_now dec t k old new end.constraint_policy
                      (contains dec k (keys laws fs))
                    ≡ ok true)))
  unfolding plan_replace
  plan_replace_lem [] es cur gone e ev front wanted needed =
      inr (es, cur, rw e, ev, wanted, needed, inl front)
  plan_replace_lem (victim ∷ rest) es cur gone e ev front wanted needed =
      let (enough, asked) = replace_now_total es cur gone e ev in
      elim (Bool-cases enough) [
        | inl done ↦ inr (
          es,
          cur,
          rw (asked, done, e, plan_replace),
          ev,
          wanted,
          needed,
          inr (rw (← e, asked, done)),
        )
        | inr more ↦
            let refused : IsRefusedNow laws k old new es cur = rw (← e, asked, more) in
            let (found_item, here) = victim_found laws cur victim rest ev.coherent front in
            let found : find c.items victim ≡ some found_item =
              ground (arith, ev.contents victim) in
            let (better, answer) =
              laws.insertion.should_replace_total c.insertion_policy victim k v.coherent.good in
            elim (Bool-cases better) [
              | inr worse ↦ inl (
                rw (asked, more, found, answer, worse, plan_replace),
                (es, cur, victim, rest, ev, front, refused, wanted, rw (answer, worse)),
              )
              | inl improves ↦
                  let (cur', ev', step, left, _, _) =
                    evicted_step laws c cur es victim rest found_item ev front found in
                  let gone' : Bool = if gone then true else ite (dec victim k) true false in
                  let tracked : gone'
                      ≡ contains dec k (keys laws (es ++ (victim, found_item) ∷ [])) =
                    rw map-append
                      (ground (arith, e, contains-append dec k (keys laws es) (victim ∷ []))) in
                  rw (asked, more, found, answer, improves, step, plan_replace)
                    (plan_replace_lem rest (es ++ (victim, found_item) ∷ []) cur' gone' tracked ev'
                      left
                      (All-snoc (λ e. t.insertion.should_replace c.insertion_policy e.0 k ≡ ok true)
                        es (victim, found_item) wanted (rw (answer, improves)))
                      (inr (es, (victim, found_item), cur, refl, ev, refused)))
            ]
      ]

  -- An item that does not fit with all victims gone, the old item among them, is larger than the
  -- limit.
  too_large :
      (es : List (K × Item V)) (end : Cache I E C D A)
      → Evicted laws c es end
      → can_replace_now dec t k old new end.constraint_policy (contains dec k (keys laws es))
        ≡ ok false
      → (victims end.eviction_policy ≡ [])
        ⊎ (can_replace_now dec t k old new end.constraint_policy (contains dec k (keys laws es))
            ≡ ok true)
      → limit c.constraint_policy < weight new
  too_large es end ev hopeless (inr fits) = absurd (cc)
  too_large es end ev hopeless (inl gone) =
      let (missing, empty) = no_victims laws end ev.coherent gone in
      let evicted_too : contains dec k (keys laws es) ≡ true =
        ground (arith, ev.contents k, missing k) in
      let refused : can_replace_now dec t k old new end.constraint_policy true ≡ ok false =
        rw evicted_too at hopeless in
      let asked =
        laws.constraint.can_add_lem end.constraint_policy k new (omega (arith, empty))
          (omega (arith, ev.limit_same)) in
      let over : leb (used end.constraint_policy + weight new) (limit end.constraint_policy)
          ≡ false =
        cc (asked, refused) in
      let past = leb-false→lt _ _ over in omega (arith, past, empty, ev.limit_same)

  -- `check_replace` on a valid cache that holds the old item, for a new item of the same key size
  -- whose sizes do not wrap, fails no assertion. It answers `false` and changes nothing, because,
  -- with the first victims gone, all of them less wanted, the constraint still does not admit the
  -- new item and the insertion policy prefers the next victim, or because the new item is larger
  -- than the limit. Or it answers `true` and evicts the first victims, perhaps the old item among
  -- them, until the constraint admits the new item: without the last of them it does not, and the
  -- insertion policy has preferred the key to each.
  pub check_replace_lem :
      ((check_replace dec t c k old new ≡ ok (c, false))
        × (IsOutranked laws (IsRefusedNow laws k old new) c k
            ⊎ (limit c.constraint_policy < weight new)))
      ⊎ ((es : List (K × Item V)) × (c' : Cache I E C D A) × (check_replace dec t c k old new
            ≡ ok (c', true))
          × Evicted laws c es c'
          × IsPreferred laws c k es
          × IsMinimal laws (IsRefusedNow laws k old new) c es
          × (can_replace_now dec t k old new c'.constraint_policy (contains dec k (keys laws es))
              ≡ ok true))
  unfolding check_replace
  check_replace_lem =
      let start = Evicted-none laws c v.coherent in
      let (fits, asked) = replace_now_total [] c false refl start in
      elim (Bool-cases fits) [
        | inl yes_fits ↦
            inr (
              [],
              c,
              rw (asked, yes_fits, check_replace),
              start,
              tt,
              inl refl,
              rw (asked, yes_fits),
            )
        | inr full ↦
            elim (plan_replace_lem (victims c.eviction_policy) [] c false refl start refl tt
              (inl refl)) [
                | inl (worse, why) ↦ inl (rw (asked, full, worse, check_replace), inl why)
                | inr (es, c', plan, ev, wanted, needed, why) ↦
                    let (enough, asked') = replace_now_total es c' _ refl ev in
                    elim (Bool-cases enough) [
                      | inr hopeless ↦ inl (
                        rw (asked, full, plan, asked', hopeless, check_replace),
                        inr (too_large es c' ev (rw (asked', hopeless)) why),
                      )
                      | inl done ↦ inr (
                        es,
                        c',
                        rw (asked, full, plan, asked', done, ev.run, check_replace),
                        ev,
                        wanted,
                        needed,
                        rw (asked', done),
                      )
                    ]
              ]
      ]
