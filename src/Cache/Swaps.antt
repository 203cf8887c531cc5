-- ===== src/Cache/Swaps.antt =====
-- cache.hpp: `swap`, among the caches of a program. They are a store, by number, so that a cache can
-- be swapped with itself.
pub mod Spec
pub mod Refinement
pub mod Members
use cachemere.Common.{run_all, ℕ, List, [], ◌∷◌, Outcome, ok, ◌>>=◌}
use cachemere.Cache.{Cache, Template}
use cachemere.Cache.Locks.{Request, on, swaps, assign}
use cachemere.Cache.Operations.{swap}
use cachemere.Cache.History.{Command, Reply, done, step}

abbrev pub StoreCommand : Type 0 → Type 0 → Type 0
StoreCommand K V = Request (Command K V)

module _ {K V I E C D A R : Type 0} (dec : Discrete K) (t : Template K V I E C D A R) where
  -- The free function `swap(lhs, rhs)`.
  unfoldable pub swap_in : (ℕ → Cache I E C D A) → ℕ → ℕ → ℕ → Cache I E C D A
  swap_in s lhs rhs = let (a, b) = swap dec t (s lhs) (s rhs) in assign (assign s lhs a) rhs b

  unfoldable pub store_step :
      StoreCommand K V → (ℕ → Cache I E C D A) → Outcome ((ℕ → Cache I E C D A) × Reply K V)
  unfolding swap_in
  store_step (on i command) s = do (c, reply) ← step dec t command (s i); ok (assign s i c, reply)
  store_step (swaps lhs rhs) s = ok (swap_in s lhs rhs, done)

  unfoldable pub store_run :
      List (StoreCommand K V)
      → (ℕ → Cache I E C D A)
      → Outcome ((ℕ → Cache I E C D A) × List (Reply K V))
  unfolding store_step
  store_run = run_all store_step
