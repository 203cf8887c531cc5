-- ===== src/Cache/Views/Lookups.antt =====
-- A lookup by a view against the lookup by the key that it stands for.
use cachemere.Common.{
  ℕ, ◌≡◌, refl, sym, ◌∙◌, ap, ◌⊎◌, inl, inr, ◌↔◌, Bool, true, none, some, Option-cases,
}
use cachemere.Common.Maps.Views.{ViewMap, AreConsistent, ViewMapLaws}
use cachemere.Item.{Item}
use cachemere.Policy.{missed, notify}
use cachemere.Cache.{Cache, Template}
use cachemere.Cache.Events.{on_cache_miss}
use cachemere.Cache.Operations.{find, contains}
use cachemere.Cache.Views.{
  ViewHandlers, tell, contains_by_view, on_cache_miss_by_view, find_by_view,
}

-- The view is equal to this key and to no other.
abbrev pub StandsFor : {K Q : Type 0} → (K → Q → Bool) → Q → K → Type 0
StandsFor {K} eq q k = (j : K) → (eq j q ≡ true) ↔ (j ≡ k)

module _ {K V I E C D A R Q : Type 0} (dec : Discrete K) (t : Template K V I E C D A R)
    (view : ViewMap Q K (Item V) D) (handlers : ViewHandlers Q I E C) {hash : K ⊎ Q → ℕ}
    {eq : K → Q → Bool} (laws : ViewMapLaws hash eq t.data_map view)
    (consistent : AreConsistent hash eq) where
  open view use {find_view}

  -- The policies make the same of a miss by the view as of one by the key.
  pub record HearAlike (q : Q) (k : K) : Type 0 where
    pub insertion : (s : I) → tell handlers.insertion s q ≡ notify t.insertion.handlers (missed k) s
    pub eviction : (s : E) → tell handlers.eviction s q ≡ notify t.eviction.handlers (missed k) s
    pub constraint :
        (s : C) → tell handlers.constraint s q ≡ notify t.constraint.handlers (missed k) s

  view_cases :
      (m : D) (q : Q) (k : K)
      → StandsFor eq q k
      → ((find_view m q ≡ none) × (t.data_map.find m k ≡ none))
        ⊎ ((item : Item V) × (find_view m q ≡ some (k, item)) × (t.data_map.find m k ≡ some item))
  view_cases m q k stands = elim (Option-cases (find_view m q)) [
    | inl missing ↦ inl (missing, laws.find_view-none consistent m q k missing ((stands k).1 refl))
    | inr ((j, item), here) ↦
        let (equal, stored) = laws.find_view-some m q j item here in
        let same : j ≡ k = (stands j).0 equal in
        inr (item, here ∙ ap (λ i. some (i, item)) same, ap (t.data_map.find m) (sym same) ∙ stored)
  ]

  pub contains_by_view-contains :
      (c : Cache I E C D A) (q : Q) (k : K)
      → StandsFor eq q k
      → contains_by_view t view handlers c q ≡ contains dec t c k
  unfolding contains_by_view contains
  contains_by_view-contains c q k stands = elim (view_cases c.items q k stands) [
    | inl (missing, absent) ↦ rw (missing, absent) refl
    | inr (item, here, stored) ↦ rw (here, stored) refl
  ]

  pub find_by_view-find :
      (c : Cache I E C D A) (q : Q) (k : K)
      → StandsFor eq q k
      → HearAlike q k
      → find_by_view t view handlers c q ≡ find dec t c k
  unfolding find_by_view find on_cache_miss_by_view on_cache_miss
  find_by_view-find c q k stands alike = elim (view_cases c.items q k stands) [
    | inl (missing, absent) ↦
        rw (missing, absent, find_by_view, find)
          (rw
            (
              alike.insertion c.insertion_policy,
              alike.eviction c.eviction_policy,
              alike.constraint c.constraint_policy,
            )
            refl)
    | inr (item, here, stored) ↦ rw (here, stored, find_by_view, find) refl
  ]
