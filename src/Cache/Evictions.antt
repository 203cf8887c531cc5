-- ===== src/Cache/Evictions.antt =====
-- A row of evictions from the front of the victims, as `check_insert`, `check_replace` and
-- `update_constraint` carry them out.
pub mod Insert
pub mod Replace
use mathlib.Core.List.{append_assoc, map-append}
use cachemere.Common.{
  ◌⊎◌, ℕ, ◌+◌, ◌≤◌, ◌≡◌, refl, sym, ◌∙◌, ap, ite, Bool, true, false, none, some, List, [], ◌∷◌,
  ◌++◌, map, arith, Outcome, ok, ◌>>=◌, is_some, total, contains, contains-append, Distinct,
  if◌then◌else◌, Option-cases, inl, inr, fun_ext, >>=-assoc,
}
use cachemere.Common.Maps.Totals.{total-none}
use cachemere.Item.{Item}
use cachemere.Policy.{notify, evicted}
use cachemere.Cache.{Cache, Template}
use cachemere.Cache.Events.{remove_entry}
use cachemere.Cache.Admission.{remove_all}
use cachemere.Cache.Invariant.{Contract, IsCoherent}
use cachemere.Cache.Invariant.Removal.{Removed, remove_entry_lem}

module _ {K V I E C D A R : Type 0} {dec : Discrete K} {t : Template K V I E C D A R}
    {Good : I → Type 0} {Inv : E → Type 0} {weight : Item V → ℕ} {used limit : C → ℕ}
    (laws : Contract dec t Good Inv weight used limit) where
  open t use {
    eviction.{victims},
    constraint.{handlers as constraint_handlers},
    data_map.{find, entries, erase},
  }

  abbrev Coherent : Cache I E C D A → Type 0
  Coherent = IsCoherent dec t Good Inv weight used limit

  abbrev pub keys : List (K × Item V) → List K
  keys = map (λ e. e.0)

  -- The first victim is in the cache.
  pub victim_found :
      (c : Cache I E C D A) (k : K) (ks : List K)
      → Coherent c
      → victims c.eviction_policy ≡ k ∷ ks
      → (item : Item V) × (find c.items k ≡ some item)
  victim_found c k ks v front = elim (Option-cases (find c.items k)) [
    | inl missing ↦ absurd (ground (arith, v.tracked k))
    | inr found ↦ found
  ]

  -- A cache without victims is empty.
  pub no_victims :
      (c : Cache I E C D A)
      → Coherent c
      → victims c.eviction_policy ≡ []
      → ((k : K) → find c.items k ≡ none) × (used c.constraint_policy ≡ 0)
  no_victims c v none_left =
      let missing : (k : K) → find c.items k ≡ none = λ k. ground (arith, v.tracked k) in
      (missing, v.accounted ∙ total-none dec laws.data_map (λ e. weight e.1) c.items missing)

  -- The first victim can be evicted, and the others stay in order.
  pub remove_victim :
      (c : Cache I E C D A) (k : K) (ks : List K) (item : Item V)
      → Coherent c
      → victims c.eviction_policy ≡ k ∷ ks
      → find c.items k ≡ some item
      → (c' : Cache I E C D A) × (remove_entry t c (k, item) ≡ ok c')
        × Removed laws c k item c'
        × (victims c'.eviction_policy ≡ ks)
  remove_victim c k ks item v front h =
      let (e', step, inv', left) =
        laws.eviction.on_evict_lem c.eviction_policy k ks item v.inv front in
      let distinct : Distinct dec (k ∷ ks) =
        rw front at (laws.eviction.victims-Distinct c.eviction_policy v.inv) in
      let (c', run, removed, same) =
        remove_entry_lem laws c k item e' v h step inv'
          (λ j. rw (left, front) (ground (arith, distinct.0))) in
      (c', run, removed, ap victims same ∙ left)

  -- The last of the evictions, if there is one.
  abbrev pub Last : (Item V → Type 0) → List (K × Item V) → Type 0
  Last P [] = Unit
  Last P (e ∷ []) = P e.1
  Last P (e ∷ f ∷ fs) = Last P (f ∷ fs)

  pub Last-append :
      (P : Item V → Type 0) (es : List (K × Item V)) (e : K × Item V)
      → P e.1
      → Last P (es ++ e ∷ [])
  Last-append P [] e h = h
  Last-append P (f ∷ []) e h = h
  Last-append P (f ∷ g ∷ es) e h = Last-append P (g ∷ es) e h

  pub Last-weaken :
      (P Q : Item V → Type 0)
      → ((item : Item V) → P item → Q item)
      → (es : List (K × Item V)) → Last P es
      → Last Q es
  Last-weaken P Q f [] h = tt
  Last-weaken P Q f (e ∷ []) h = f e.1 h
  Last-weaken P Q f (e ∷ g ∷ es) h = Last-weaken P Q f (g ∷ es) h

  -- `es` are entries of `c`, its first victims in order, and `c'` is what is left without them.
  pub record Evicted (c : Cache I E C D A) (es : List (K × Item V)) (c' : Cache I E C D A)
      : Type 0 where
    pub coherent : Coherent c'
    pub run : remove_all dec t es c ≡ ok c'
    pub order : victims c.eviction_policy ≡ keys es ++ victims c'.eviction_policy
    pub freed : used c'.constraint_policy + total (λ e. weight e.1) es ≡ used c.constraint_policy
    pub limit_same : limit c'.constraint_policy ≡ limit c.constraint_policy
    pub contents :
        (j : K) → find c'.items j ≡ (if contains dec j (keys es) then none else find c.items j)

  pub Evicted-none : (c : Cache I E C D A) → Coherent c → Evicted c [] c
  unfolding remove_all
  Evicted-none c v = record {
    coherent = v;
    run = refl;
    order = refl;
    freed = omega arith;
    limit_same = refl;
    contents = λ j. refl;
  }

  -- Without the last of the evictions, `Refused` still holds.
  abbrev pub IsMinimal :
      (List (K × Item V) → Cache I E C D A → Type 0) → Cache I E C D A → List (K × Item V) → Type 0
  IsMinimal Refused c es =
      (es ≡ [])
      ⊎ ((ds : List (K × Item V)) × (e : K × Item V) × (cur : Cache I E C D A) × (es ≡ ds ++ e ∷ [])
          × Evicted c ds cur
          × Refused ds cur)

  remove_all-append :
      (es fs : List (K × Item V)) (c : Cache I E C D A)
      → remove_all dec t (es ++ fs) c ≡ (remove_all dec t es c >>= remove_all dec t fs)
  unfolding remove_all
  remove_all-append [] fs c = refl
  remove_all-append (e ∷ es) fs c =
      ap (◌>>=◌ (remove_entry t c e)) (fun_ext (λ c'. remove_all-append es fs c'))
      ∙ sym (>>=-assoc (remove_entry t c e) (remove_all dec t es) (remove_all dec t fs))

  total-append :
      (es fs : List (K × Item V))
      → total (λ e. weight e.1) (es ++ fs) ≡ total (λ e. weight e.1) es + total (λ e. weight e.1) fs
  total-append [] fs = omega arith
  total-append (e ∷ es) fs = omega (arith, total-append es fs)

  -- One more victim.
  pub evicted_step :
      (c cur : Cache I E C D A) (es : List (K × Item V)) (k : K) (ks : List K) (item : Item V)
      → Evicted c es cur
      → victims cur.eviction_policy ≡ k ∷ ks
      → find c.items k ≡ some item
      → (cur' : Cache I E C D A) × Evicted c (es ++ (k, item) ∷ []) cur'
        × (notify constraint_handlers (evicted k item) cur.constraint_policy
            ≡ ok cur'.constraint_policy)
        × (victims cur'.eviction_policy ≡ ks)
        × (used cur'.constraint_policy + weight item ≡ used cur.constraint_policy)
        × (remove_entry t cur (k, item) ≡ ok cur')
  unfolding remove_all
  evicted_step c cur es k ks item ev front h =
      let (stored, found) = victim_found cur k ks ev.coherent front in
      let here : find cur.items k ≡ some item = ground (arith, ev.contents k) in
      let (cur', run, removed, left) = remove_victim cur k ks item ev.coherent front here in
      (
        cur',
        record {
          coherent = removed.coherent;
          run = rw (remove_all-append, ev.run, run);
          order = rw (map-append, left, append_assoc) (ev.order ∙ ap (◌++◌ (keys es)) front);
          freed = omega (arith, total-append es ((k, item) ∷ []), ev.freed, removed.used_less);
          limit_same = removed.limit_same ∙ ev.limit_same;
          contents = λ j.
              rw (removed.items, map-append)
                (ground (
                  arith,
                  laws.data_map.find-erase cur.items k j,
                  ev.contents j,
                  contains-append dec j (keys es) (k ∷ []),
                ));
        },
        removed.constraint,
        left,
        removed.used_less,
        run,
      )
