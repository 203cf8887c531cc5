-- ===== src/Cache/History/Spec.antt =====
-- What a cache promises its clients: a map that may forget keys when something is stored or the
-- bound changes, and that may refuse a value, but never answers anything else than the map has.
use mathlib.Core.List.{lookup}
use cachemere.Common.{
  ℕ, length, DistinctKeys, ◌≡◌, ◌⊎◌, ite, if◌then◌else◌, Bool, true, false, Option, none, some,
  is_some, List, [], ◌∷◌, ◌++◌,
}
use cachemere.Cache.History.{
  Command, inserts, finds, asks, removes, clears, retains, bounds, imports, collects, visits,
  counts, resizes, Reply, answered, found, listed, counted, done,
}

abbrev pub Contents : Type 0 → Type 0 → Type 0
Contents K V = K → Option V

module _ {K V : Type 0} (dec : Discrete K) where
  -- The pairs of the map, each key once, in any order.
  pub record Lists (m : Contents K V) (l : List (K × V)) : Type 0 where
    pub distinct : DistinctKeys dec l
    pub agrees : (j : K) → lookup dec j l ≡ m j

  abbrev pub assign : K → V → Contents K V → Contents K V
  assign k v m j = ite (dec k j) (some v) (m j)

  abbrev pub assign_all : List (K × V) → Contents K V → Contents K V
  assign_all [] m = m
  assign_all ((k, v) ∷ rest) m = assign_all rest (assign k v m)

  abbrev pub satisfying : (K → V → Bool) → K → Option V → Option V
  satisfying p j none = none
  satisfying p j (some v) = if p j v then some v else none

  -- The replies that the specification allows, with what the map is afterwards.
  pub data IsAllowed (m m' : Contents K V) : Command K V → Reply K V → Type 0 where
    stores :
        {k : K} {v : V}
        → m' k ≡ some v
        → ((j : K) → (m' j ≡ none) ⊎ (m' j ≡ assign k v m j))
        → IsAllowed m m' (inserts k v) (answered true)
    refuses :
        {k : K} {v : V} → ((j : K) → m' j ≡ m j) → IsAllowed m m' (inserts k v) (answered false)
    looks_up : {k : K} → ((j : K) → m' j ≡ m j) → IsAllowed m m' (finds k) (found (m k))
    tells : {k : K} → ((j : K) → m' j ≡ m j) → IsAllowed m m' (asks k) (answered (is_some (m k)))
    drops :
        {k : K}
        → ((j : K) → m' j ≡ ite (dec k j) none (m j))
        → IsAllowed m m' (removes k) (answered (is_some (m k)))
    empties : ((j : K) → m' j ≡ none) → IsAllowed m m' clears done
    filters :
        {p : K → V → Bool}
        → ((j : K) → m' j ≡ satisfying p j (m j))
        → IsAllowed m m' (retains p) done
    forgets :
        {bound : ℕ} → ((j : K) → (m' j ≡ none) ⊎ (m' j ≡ m j)) → IsAllowed m m' (bounds bound) done
    copies :
        {collection : List (K × V)} (stored rest : List (K × V))
        → collection ≡ stored ++ rest
        → ((j : K) → m' j ≡ assign_all stored m j)
        → IsAllowed m m' (imports collection) done
    collected :
        {container : List (K × V)} (l : List (K × V))
        → ((j : K) → m' j ≡ m j)
        → Lists m l
        → IsAllowed m m' (collects container) (listed (container ++ l))
    visited :
        (l : List (K × V)) → ((j : K) → m' j ≡ m j) → Lists m l → IsAllowed m m' visits (listed l)
    sized :
        (l : List (K × V))
        → ((j : K) → m' j ≡ m j)
        → Lists m l
        → IsAllowed m m' counts (counted (length l))
    stays : {window_size : ℕ} → ((j : K) → m' j ≡ m j) → IsAllowed m m' (resizes window_size) done

  pub data AreAllowed
      : Contents K V → Contents K V → List (Command K V) → List (Reply K V) → Type 0 where
    finish : {m : Contents K V} → AreAllowed m m [] []
    follow :
        {m m' m'' : Contents K V} {command : Command K V} {reply : Reply K V}
        {commands : List (Command K V)} {replies : List (Reply K V)}
        → IsAllowed m m' command reply
        → AreAllowed m' m'' commands replies
        → AreAllowed m m'' (command ∷ commands) (reply ∷ replies)
