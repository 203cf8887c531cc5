-- ===== src/Cache/Lifecycle/Import.antt =====
-- `import`, and the constructor from a collection.
use cachemere.Common.{
  ℕ, ◌<◌, ◌≡◌, refl, sym, ◌∙◌, ap, inl, inr, ite, true, false, none, some, Option, List, [], ◌∷◌,
  ◌++◌, arith, ok, leb→le, Bool-cases,
}
use cachemere.Item.{Item, size_mod}
use cachemere.Cache.{Cache, Template}
use cachemere.Cache.Events.{new_item}
use cachemere.Cache.Operations.{create, import, create_from}
use cachemere.Cache.Invariant.{Contract}
use cachemere.Cache.Insertion.{Valid, HasRoom, Stored, new_item-measured, insert_or_update_lem}
use cachemere.Cache.Lifecycle.{create_lem}

module _ {K V I E C D A R : Type 0} {dec : Discrete K} {t : Template K V I E C D A R}
    {Good : I → Type 0} {Inv : E → Type 0} {weight : Item V → ℕ} {used limit : C → ℕ}
    (laws : Contract dec t Good Inv weight used limit) where
  open t use {
    eviction.{victims},
    constraint.{can_add},
    data_map.{find, entries, empty},
    accumulator.{make},
  }

  -- What stands under `j` once the pairs have been stored in turn over `found`.
  abbrev pub overlay : List (K × V) → K → Option (Item V) → Option (Item V)
  overlay [] j found = found
  overlay ((k, v) ∷ rest) j found = overlay rest j (ite (dec k j) (some (new_item t k v)) found)

  abbrev pub AllHaveRoom : Cache I E C D A → List (K × V) → Type 0
  AllHaveRoom c [] = Unit
  AllHaveRoom c ((k, v) ∷ rest) = HasRoom laws c k v × AllHaveRoom c rest

  -- The constraint has no room for the first of the pairs.
  abbrev pub IsStopped : Cache I E C D A → List (K × V) → Type 0
  IsStopped c [] = Unit
  IsStopped c ((k, v) ∷ rest) = can_add c.constraint_policy k (new_item t k v) ≡ false

  AllHaveRoom-same :
      (c c' : Cache I E C D A) (collection : List (K × V))
      → limit c'.constraint_policy ≡ limit c.constraint_policy
      → AllHaveRoom c collection
      → AllHaveRoom c' collection
  AllHaveRoom-same c c' [] e h = tt
  AllHaveRoom-same c c' ((k, v) ∷ rest) e h =
      (record { sizes = h.0.sizes; sums = rw e h.0.sums }, AllHaveRoom-same c c' rest e h.1)

  -- One round of the loop of `import`.
  import_step :
      (c : Cache I E C D A) (k : K) (value : V) (rest : List (K × V))
      → Valid laws c
      → HasRoom laws c k value
      → can_add c.constraint_policy k (new_item t k value) ≡ true
      → (mid : Cache I E C D A) × (import dec t ((k, value) ∷ rest) c ≡ import dec t rest mid)
        × Stored laws c k (new_item t k value) mid
  unfolding import
  import_step c k value rest v room fits =
      let item = new_item t k value in
      let asked = laws.constraint.can_add_lem c.constraint_policy k item v.within room.sums in
      let enough = leb→le _ _ (sym asked ∙ fits) in
      let (mid, step, st) =
        insert_or_update_lem laws c k item v.coherent v.bounded
          (new_item-measured laws c k value room) (λ old here. omega (arith, enough))
          (λ missing. enough) in
      (mid, rw (fits, step, import), st)

  -- `import` into a valid cache, of items whose sizes do not wrap, fails no assertion. It stores
  -- the pairs in turn up to the first one that the constraint has no room for, each over what stood
  -- under its key, and evicts nothing; the cache stays valid, with the same limit.
  pub import_lem :
      (collection : List (K × V)) (c : Cache I E C D A)
      → Valid laws c
      → AllHaveRoom c collection
      → (stored rest : List (K × V)) × (c' : Cache I E C D A) × (import dec t collection c ≡ ok c')
        × Valid laws c'
        × (limit c'.constraint_policy ≡ limit c.constraint_policy)
        × (collection ≡ stored ++ rest)
        × IsStopped c' rest
        × ((j : K) → find c'.items j ≡ overlay stored j (find c.items j))
  unfolding import
  import_lem [] c v room = ([], [], c, refl, v, refl, refl, tt, λ j. refl)
  import_lem ((k, value) ∷ rest) c v room =
      let item = new_item t k value in
      elim (Bool-cases (can_add c.constraint_policy k item)) [
        | inr full ↦ ([], (k, value) ∷ rest, c, rw (full, import), v, refl, refl, full, λ j. refl)
        | inl fits ↦
            let (mid, step, st) = import_step c k value rest v room.0 fits in
            let (stored, left, c', run, v', limit_same, split, stop, contents) =
              import_lem rest mid st.valid (AllHaveRoom-same c mid rest st.limit_same room.1) in
            (
              (k, value) ∷ stored,
              left,
              c',
              step ∙ run,
              v',
              limit_same ∙ st.limit_same,
              ap (◌∷◌ (k, value)) split,
              stop,
              λ j. contents j ∙ ap (overlay stored j) (st.contents j),
            )
      ]

  -- The constructor from a collection, of items whose sizes do not wrap and with a bound below the
  -- modulus of `size_t`, fails no assertion. The new cache is valid, has that bound for its limit,
  -- and holds the pairs, the later ones over the earlier ones, up to the first one that the
  -- constraint has no room for.
  pub create_from_lem :
      (collection : List (K × V)) (bound : ℕ)
      → bound < size_mod
      → AllHaveRoom (create dec t bound) collection
      → (stored rest : List (K × V)) × (c' : Cache I E C D A) × (create_from dec t collection bound
          ≡ ok c')
        × Valid laws c'
        × (limit c'.constraint_policy ≡ bound)
        × (collection ≡ stored ++ rest)
        × IsStopped c' rest
        × ((j : K) → find c'.items j ≡ overlay stored j none)
  unfolding create_from
  create_from_lem collection bound small room =
      let fresh = create_lem laws bound small in
      let (stored, rest, c', run, v, limit_same, split, stop, contents) =
        import_lem collection (create dec t bound) fresh.valid room in
      (
        stored,
        rest,
        c',
        run,
        v,
        limit_same ∙ fresh.limit_is,
        split,
        stop,
        λ j. contents j ∙ ap (overlay stored j) (fresh.vacant j),
      )
