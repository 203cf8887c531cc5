-- ===== src/Policy/Laws.antt =====
-- What `Cache` relies on from its policies. Each shipped policy is shown to meet its part, GDSF for
-- costs that are small enough.
use cachemere.Common.{
  ℕ, ◌+◌, ◌-◌, ◌%◌, ◌≤◌, ◌<◌, ◌≡◌, Bool, true, false, List, [], ◌∷◌, ite, ok, contains, Distinct,
  leb,
}
use cachemere.Item.{Item, IsExact, size_mod}
use cachemere.Policy.{
  Event, inserted, updated, hit, missed, evicted, notify, InsertionPolicy, EvictionPolicy,
  ConstraintPolicy,
}

-- An insertion policy that is well formed answers, and stays well formed.
pub record InsertionLaws {K V I : Type 0} (p : InsertionPolicy K V I) (Good : I → Type 0)
    : Type 0 where
  pub initial-Good : Good p.initial
  pub clear-Good : (s : I) → Good s → Good (p.clear s)
  pub should_add_total : (s : I) (k : K) → Good s → (b : Bool) × (p.should_add s k ≡ ok b)
  pub should_replace_total :
      (s : I) (victim candidate : K)
      → Good s
      → (b : Bool) × (p.should_replace s victim candidate ≡ ok b)
  pub notify-Good :
      (s : I) (e : Event K V) → Good s → (s' : I) × (notify p.handlers e s ≡ ok s') × Good s'

-- The item has the size of its key, and its total size has not wrapped.
abbrev pub IsMeasured : {K V : Type 0} → (K → ℕ) → K → Item V → Type 0
IsMeasured measure_key k item = (item.key_size ≡ measure_key k % size_mod) × IsExact item

-- An eviction policy holds the keys of the cache: its victims are distinct, an insertion adds a
-- key, hits and updates add and drop none, and evicting the first victim leaves the others in order.
pub record EvictionLaws {K V E : Type 0} (dec : Discrete K) (p : EvictionPolicy K V E)
    (Inv : E → Type 0) (measure_key : K → ℕ) : Type 0 where
  pub initial-Inv : Inv p.initial
  pub victims-initial : p.victims p.initial ≡ []
  pub clear-Inv : (s : E) → Inv s → Inv (p.clear s)
  pub victims-clear : (s : E) → p.victims (p.clear s) ≡ []
  pub victims-Distinct : (s : E) → Inv s → Distinct dec (p.victims s)
  pub on_insert_lem :
      (s : E) (k : K) (item : Item V)
      → Inv s
      → IsMeasured measure_key k item
      → contains dec k (p.victims s) ≡ false
      → (s' : E) × (notify p.handlers (inserted k item) s ≡ ok s')
        × Inv s'
        × ((j : K)
            → contains dec j (p.victims s') ≡ ite (dec k j) true (contains dec j (p.victims s)))
  pub on_update_lem :
      (s : E) (k : K) (old new : Item V)
      → Inv s
      → IsMeasured measure_key k new
      → contains dec k (p.victims s) ≡ true
      → (s' : E) × (notify p.handlers (updated k old new) s ≡ ok s')
        × Inv s'
        × ((j : K) → contains dec j (p.victims s') ≡ contains dec j (p.victims s))
  pub on_cache_hit_lem :
      (s : E) (k : K) (item : Item V)
      → Inv s
      → IsMeasured measure_key k item
      → contains dec k (p.victims s) ≡ true
      → (s' : E) × (notify p.handlers (hit k item) s ≡ ok s')
        × Inv s'
        × ((j : K) → contains dec j (p.victims s') ≡ contains dec j (p.victims s))
  pub on_cache_miss_lem :
      (s : E) (k : K)
      → Inv s
      → (s' : E) × (notify p.handlers (missed k) s ≡ ok s')
        × Inv s'
        × ((j : K) → contains dec j (p.victims s') ≡ contains dec j (p.victims s))
  pub on_evict_lem :
      (s : E) (k : K) (ks : List K) (item : Item V)
      → Inv s
      → p.victims s ≡ k ∷ ks
      → (s' : E) × (notify p.handlers (evicted k item) s ≡ ok s') × Inv s' × (p.victims s' ≡ ks)

-- What `remove` and `retain` need beyond that: any key that is held can be evicted.
pub record RemovalLaws {K V E : Type 0} (dec : Discrete K) (p : EvictionPolicy K V E)
    (Inv : E → Type 0) : Type 0 where
  pub on_evict_any_lem :
      (s : E) (k : K) (item : Item V)
      → Inv s
      → contains dec k (p.victims s) ≡ true
      → (s' : E) × (notify p.handlers (evicted k item) s ≡ ok s')
        × Inv s'
        × ((j : K)
            → contains dec j (p.victims s') ≡ ite (dec k j) false (contains dec j (p.victims s)))

-- A constraint bounds a sum of weights: `used` is the sum, `limit` the bound. The hypotheses keep
-- the sums below the modulus of `size_t`.
pub record ConstraintLaws {K V C : Type 0} (p : ConstraintPolicy K V C) (weight : Item V → ℕ)
    (used limit : C → ℕ) : Type 0 where
  pub construct_lem : (n : ℕ) → (used (p.construct n) ≡ 0) × (limit (p.construct n) ≡ n)
  pub clear_lem : (c : C) → (used (p.clear c) ≡ 0) × (limit (p.clear c) ≡ limit c)
  pub update_lem : (c : C) (n : ℕ) → (used (p.update c n) ≡ used c) × (limit (p.update c n) ≡ n)
  pub is_satisfied_lem : (c : C) → p.is_satisfied c ≡ leb (used c) (limit c)
  pub can_add_lem :
      (c : C) (k : K) (item : Item V)
      → used c ≤ limit c
      → limit c + weight item < size_mod
      → p.can_add c k item ≡ leb (used c + weight item) (limit c)
  pub can_replace_lem :
      (c : C) (k : K) (old new : Item V)
      → used c ≤ limit c
      → limit c + weight new < size_mod
      → weight old ≤ used c
      → IsExact old
      → IsExact new
      → old.key_size ≡ new.key_size
      → p.can_replace c k old new ≡ ok (leb (used c - weight old + weight new) (limit c))
  pub on_insert_lem :
      (c : C) (k : K) (item : Item V)
      → used c + weight item ≤ limit c
      → limit c < size_mod
      → (c' : C) × (notify p.handlers (inserted k item) c ≡ ok c')
        × (used c' ≡ used c + weight item)
        × (limit c' ≡ limit c)
  pub on_update_lem :
      (c : C) (k : K) (old new : Item V)
      → weight old ≤ used c
      → used c - weight old + weight new ≤ limit c
      → limit c < size_mod
      → IsExact old
      → IsExact new
      → old.key_size ≡ new.key_size
      → (c' : C) × (notify p.handlers (updated k old new) c ≡ ok c')
        × (used c' ≡ used c - weight old + weight new)
        × (limit c' ≡ limit c)
  pub on_cache_miss_lem :
      (c : C) (k : K)
      → (c' : C) × (notify p.handlers (missed k) c ≡ ok c')
        × (used c' ≡ used c)
        × (limit c' ≡ limit c)
  pub on_evict_lem :
      (c : C) (k : K) (item : Item V)
      → weight item ≤ used c
      → used c < size_mod
      → (c' : C) × (notify p.handlers (evicted k item) c ≡ ok c')
        × (used c' ≡ used c - weight item)
        × (limit c' ≡ limit c)
