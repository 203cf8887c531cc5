-- ===== src/Cache/History.antt =====
-- cache.h: the public operations of `Cache` as commands, and a client's history of them. An operation
-- of the cache is one critical section, so what several threads do is such a history too.
pub mod Spec
pub mod Answers
pub mod Listings
pub mod Commands
pub mod Refinement
use cachemere.Common.{
  run_all, ℕ, Bool, Option, List, [], ◌∷◌, ◌++◌, ◌≡◌, refl, sym, ◌∙◌, ap, inl, inr, arith, Outcome,
  ok, ok_inj, Outcome-cases, ◌>>=◌,
}
use cachemere.Cache.{Cache, Template}
use cachemere.Cache.Operations.{
  insert, find, contains, remove, clear, retain, update_constraint, import, collect_into, for_each,
  number_of_items, set_statistics_window_size,
}

pub data Command (K V : Type 0) : Type 0 where
  inserts : K → V → Command K V
  finds asks removes : K → Command K V
  clears : Command K V
  retains : (K → V → Bool) → Command K V
  bounds : ℕ → Command K V
  imports : List (K × V) → Command K V
  collects : List (K × V) → Command K V
  visits counts : Command K V
  resizes : ℕ → Command K V

pub data Reply (K V : Type 0) : Type 0 where
  answered : Bool → Reply K V
  found : Option V → Reply K V
  listed : List (K × V) → Reply K V
  counted : ℕ → Reply K V
  done : Reply K V

-- `emplace_back`
abbrev pub emplace_back : {K V : Type 0} → List (K × V) → K → V → List (K × V)
emplace_back container k v = container ++ (k, v) ∷ []

module _ {K V I E C D A R : Type 0} (dec : Discrete K) (t : Template K V I E C D A R) where
  pub step : Command K V → Cache I E C D A → Outcome (Cache I E C D A × Reply K V)
  step (inserts k v) c = do (c', accepted) ← insert dec t c k v; ok (c', answered accepted)
  step (finds k) c = do (c', value) ← find dec t c k; ok (c', found value)
  step (asks k) c = ok (c, answered (contains dec t c k))
  step (removes k) c = do (c', there) ← remove dec t c k; ok (c', answered there)
  step clears c = ok (clear dec t c, done)
  step (retains predicate_fn) c = do c' ← retain dec t predicate_fn c; ok (c', done)
  step (bounds bound) c = do c' ← update_constraint dec t c bound; ok (c', done)
  step (imports collection) c = do c' ← import dec t collection c; ok (c', done)
  -- The container is a `std::vector`, and the function of `for_each` writes down what it is called on.
  step (collects container) c = ok (c, listed (collect_into dec t emplace_back container c))
  step visits c = ok (c, listed (for_each dec t emplace_back [] c))
  step counts c = ok (c, counted (number_of_items dec t c))
  step (resizes window_size) c = ok (set_statistics_window_size dec t c window_size, done)

  unfoldable pub run :
      List (Command K V) → Cache I E C D A → Outcome (Cache I E C D A × List (Reply K V))
  unfolding step
  run = run_all step
