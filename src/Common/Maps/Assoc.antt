-- ===== src/Common/Maps/Assoc.antt =====
-- An association list without repeated keys is such a map.
use mathlib.Core.Path.{◌≡◌, refl}
use mathlib.Core.Logic.{ite}
use mathlib.Core.List.{List, [], ◌∷◌, lookup}
use mathlib.Core.Option.{some}
use native.Mathlib.Omega.{arith}
use cachemere.Common.Lists.{DistinctKeys, erase_key, lookup-erase_key, erase_key-DistinctKeys}
use cachemere.Common.Maps.{HashMap, HashMapLaws}

pub record Assoc {K : Type 0} (dec : Discrete K) (A : Type 0) : Type 0 where
  pub items : List (K × A)
  pub distinct : DistinctKeys dec items

module _ {K A : Type 0} (dec : Discrete K) where
  pub put-DistinctKeys :
      (k : K) (a : A) (l : List (K × A))
      → DistinctKeys dec l
      → DistinctKeys dec ((k, a) ∷ erase_key dec k l)
  put-DistinctKeys k a l d =
      (ground (arith, lookup-erase_key dec k k l d), erase_key-DistinctKeys dec k l d)

  abbrev pub put : Assoc dec A → K → A → Assoc dec A
  put m k a = record {
    items = (k, a) ∷ erase_key dec k m.items;
    distinct = put-DistinctKeys k a m.items m.distinct;
  }

  abbrev pub without : Assoc dec A → K → Assoc dec A
  without m k = record {
    items = erase_key dec k m.items;
    distinct = erase_key-DistinctKeys dec k m.items m.distinct;
  }

  abbrev pub assoc_map : HashMap K A (Assoc dec A)
  assoc_map = record {
    empty = record { items = []; distinct = tt };
    find = λ m k. lookup dec k m.items;
    insert_or_assign = put;
    erase = without;
    entries = λ m. m.items;
  }

  find-put :
      (m : Assoc dec A) (k j : K) (a : A)
      → lookup dec j (put m k a).items ≡ ite (dec k j) (some a) (lookup dec j m.items)
  unfolding lookup
  find-put m k j a = ground (arith, lookup-erase_key dec k j m.items m.distinct)

  pub assoc_map-HashMapLaws : HashMapLaws dec assoc_map
  assoc_map-HashMapLaws = record {
    entries-empty = refl;
    entries-DistinctKeys = λ m. m.distinct;
    find-entries = λ m k. refl;
    find-insert_or_assign = find-put;
    find-erase = λ m k j. lookup-erase_key dec k j m.items m.distinct;
  }
