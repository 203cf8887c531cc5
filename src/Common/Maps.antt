-- ===== src/Common/Maps.antt =====
-- The interface of the hash maps that the sources take from Abseil (`node_hash_map`,
-- `flat_hash_map`, `btree_map`): operations and the laws that the library documents. The order of
-- iteration is that of `entries`, of which only the contents are known.
pub mod Totals
pub mod Assoc
pub mod Views
use mathlib.Core.Path.{◌≡◌}
use mathlib.Core.Logic.{ite}
use mathlib.Core.List.{List, [], lookup}
use mathlib.Core.Option.{Option, none, some}
use cachemere.Common.Lists.{DistinctKeys}

-- The operations: `empty` is the default constructor and `clear`, `insert_or_assign` also stands
-- for `emplace` of a key that is not there.
pub record HashMap (K A M : Type 0) : Type 0 where
  pub empty : M
  pub find : M → K → Option A
  pub insert_or_assign : M → K → A → M
  pub erase : M → K → M
  pub entries : M → List (K × A)

pub record HashMapLaws {K A M : Type 0} (dec : Discrete K) (h : HashMap K A M) : Type 0 where
  pub entries-empty : h.entries h.empty ≡ []
  pub entries-DistinctKeys : (m : M) → DistinctKeys dec (h.entries m)
  pub find-entries : (m : M) (k : K) → h.find m k ≡ lookup dec k (h.entries m)
  pub find-insert_or_assign :
      (m : M) (k j : K) (a : A)
      → h.find (h.insert_or_assign m k a) j ≡ ite (dec k j) (some a) (h.find m j)
  pub find-erase : (m : M) (k j : K) → h.find (h.erase m k) j ≡ ite (dec k j) none (h.find m j)
