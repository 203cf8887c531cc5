-- ===== src/Cache/Shrinking.antt =====
-- `update_constraint`: a new bound, and the evictions that it takes.
use cachemere.Common.{
  ℕ, suc, ◌+◌, ◌≤◌, ◌<◌, ◌≡◌, refl, sym, ◌∙◌, inl, inr, true, none, some, List, [], ◌∷◌, ◌++◌,
  arith, ok, length, leb→le, le→leb, leb-false→lt, Bool-cases, contains, if◌then◌else◌,
}
use cachemere.Item.{Item, size_mod}
use cachemere.Cache.{Cache, Template}
use cachemere.Cache.Operations.{evict_until_satisfied, update_constraint}
use cachemere.Cache.Invariant.{Contract, IsCoherent}
use cachemere.Cache.Evictions.{
  Evicted, keys, Last, Last-append, victim_found, no_victims, Evicted-none, evicted_step,
}
use cachemere.Cache.Insertion.{Valid}

module _ {K V I E C D A R : Type 0} {dec : Discrete K} {t : Template K V I E C D A R}
    {Good : I → Type 0} {Inv : E → Type 0} {weight : Item V → ℕ} {used limit : C → ℕ}
    (laws : Contract dec t Good Inv weight used limit) where
  open t use {eviction.{victims}, constraint.{is_satisfied}, data_map.{find}}

  -- With `victim` still there, the bound would be passed.
  abbrev pub IsOver : C → Item V → Type 0
  IsOver n victim = limit n < used n + weight victim

  evict_until_satisfied_lem :
      (fuel : ℕ) (c cur : Cache I E C D A) (es : List (K × Item V)) (rest : List K)
      → Evicted laws c es cur
      → Last laws (IsOver cur.constraint_policy) es
      → victims cur.eviction_policy ≡ rest
      → length rest < fuel
      → (fs : List (K × Item V)) × (end : Cache I E C D A) × (evict_until_satisfied dec t fuel cur
          ≡ ok end)
        × Evicted laws c fs end
        × Last laws (IsOver end.constraint_policy) fs
        × (used end.constraint_policy ≤ limit end.constraint_policy)
  unfolding evict_until_satisfied
  evict_until_satisfied_lem ℕ.zero c cur es rest ev last front h = elim h [ ]
  evict_until_satisfied_lem (suc fuel) c cur es [] ev last front h = (
    es,
    cur,
    rw (front, evict_until_satisfied),
    ev,
    last,
    omega (arith, (no_victims laws cur ev.coherent front).1),
  )
  evict_until_satisfied_lem (suc fuel) c cur es (victim ∷ rest) ev last front h =
      elim (Bool-cases (is_satisfied cur.constraint_policy)) [
        | inl enough ↦ (
          es,
          cur,
          rw (front, enough, evict_until_satisfied),
          ev,
          last,
          leb→le _ _ (sym (laws.constraint.is_satisfied_lem cur.constraint_policy) ∙ enough),
        )
        | inr more ↦
            let (stored, here) = victim_found laws cur victim rest ev.coherent front in
            let found : find c.items victim ≡ some stored = ground (arith, ev.contents victim) in
            let (cur', ev', step, left, freed, run) =
              evicted_step laws c cur es victim rest stored ev front found in
            let asked = laws.constraint.is_satisfied_lem cur.constraint_policy in
            let over = leb-false→lt _ _ (sym asked ∙ more) in
            let last' =
              Last-append laws (IsOver cur'.constraint_policy) es (victim, stored)
                (omega (arith, over, freed, ev.limit_same, ev'.limit_same)) in
            rw (front, more, here, run, evict_until_satisfied)
              (evict_until_satisfied_lem fuel c cur' (es ++ (victim, stored) ∷ []) rest ev' last'
                left (omega arith))
      ]

  -- `update_constraint` on a valid cache, with a bound below the modulus of `size_t`, runs to its
  -- end and fails no assertion: the cache is valid under the new bound, some first victims of the
  -- eviction policy are gone, in its order, the last of them because it had to, and every other key
  -- has the item that it had.
  pub update_constraint_lem :
      (c : Cache I E C D A) (bound : ℕ)
      → Valid laws c
      → bound < size_mod
      → (es : List (K × Item V)) × (c' : Cache I E C D A) × (update_constraint dec t c bound
          ≡ ok c')
        × Valid laws c'
        × (limit c'.constraint_policy ≡ bound)
        × Last laws (IsOver c'.constraint_policy) es
        × (victims c.eviction_policy ≡ keys laws es ++ victims c'.eviction_policy)
        × ((j : K)
            → find c'.items j ≡ (if contains dec j (keys laws es) then none else find c.items j))
  unfolding update_constraint
  update_constraint_lem c bound v small =
      let (used', limit') = laws.constraint.update_lem c.constraint_policy bound in
      let start : Cache I E C D A = record c {
        constraint_policy = t.constraint.update c.constraint_policy bound;
      } in
      let coherent : IsCoherent dec t Good Inv weight used limit start = record {
        good = v.coherent.good;
        inv = v.coherent.inv;
        tracked = v.coherent.tracked;
        accounted = used' ∙ v.coherent.accounted;
        small = rw used' v.coherent.small;
        measured = v.coherent.measured;
      } in
      let (es, end, run, ev, last, within) =
        evict_until_satisfied_lem (suc (length (victims c.eviction_policy))) start start []
          (victims c.eviction_policy) (Evicted-none laws start coherent) tt refl (omega arith) in
      let satisfied : is_satisfied end.constraint_policy ≡ true =
        laws.constraint.is_satisfied_lem end.constraint_policy ∙ le→leb _ _ within in
      (
        es,
        end,
        rw (run, satisfied),
        record {
          coherent = ev.coherent;
          within = within;
          bounded = omega (arith, ev.limit_same, limit');
        },
        ev.limit_same ∙ limit',
        last,
        ev.order,
        ev.contents,
      )
