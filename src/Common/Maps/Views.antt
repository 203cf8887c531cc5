-- ===== src/Common/Maps/Views.antt =====
-- Lookups by a view of a key, which Abseil's hash maps have for transparent functors: the hash of keys
-- and views, and the comparison of a key with a view, are the map's.
use mathlib.Core.Path.{◌≡◌}
use mathlib.Core.Logic.{◌⊎◌, inl, inr}
use mathlib.Core.Bool.{Bool, true}
use mathlib.Core.Option.{Option, none, some}
use Prim.Native.Nat.{ℕ}
use cachemere.Common.Maps.{HashMap}

-- A lookup gives the entry: the stored key with what stands under it.
pub record ViewMap (Q K A M : Type 0) : Type 0 where
  pub find_view : M → Q → Option (K × A)

module _ {Q K : Type 0} (hash : K ⊎ Q → ℕ) (eq : K → Q → Bool) where
  -- What the library asks of the functors.
  abbrev pub AreConsistent : Type 0
  AreConsistent = (k : K) (q : Q) → eq k q ≡ true → hash (inl k) ≡ hash (inr q)

  pub record ViewMapLaws {A M : Type 0} (h : HashMap K A M) (v : ViewMap Q K A M) : Type 0 where
    pub find_view-some :
        (m : M) (q : Q) (k : K) (a : A)
        → v.find_view m q ≡ some (k, a)
        → (eq k q ≡ true) × (h.find m k ≡ some a)
    pub find_view-none :
        AreConsistent
        → (m : M) (q : Q) (k : K) → v.find_view m q ≡ none
        → eq k q ≡ true
        → h.find m k ≡ none
