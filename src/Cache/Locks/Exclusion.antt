-- ===== src/Cache/Locks/Exclusion.antt =====
-- No two threads are inside of operations on one cache.
use cachemere.Common.{ℕ, ◌<◌, ◌≡◌, ap, Bool, true, ◌||◌, none, some, List, arith, ◌==◌}
use cachemere.Cache.Locks.{RecursiveMutex, Request, on, swaps, inside, Locks, Reach}
use cachemere.Cache.Locks.Ownership.{owned, claims, IsOwned, Reach-IsOwned}

only_owner : (m : RecursiveMutex) (i j : ℕ) → 0 < owned m i → 0 < owned m j → i ≡ j
only_owner none i j h k = absurd (omega arith)
only_owner (some (o, n)) i j h k = ground arith

module _ {Op : Type 0} where
  abbrev pub uses : Request Op → ℕ → Bool
  uses (on y op) x = y == x
  uses (swaps y z) x = y == x || z == x

  uses-claims :
      (request : Request Op) (todo : List (Request Op)) (x : ℕ)
      → uses request x ≡ true
      → 0 < claims (inside request todo) x
  uses-claims (on y op) todo x h = ground arith
  uses-claims (swaps y z) todo x h = ground arith

  pub IsOwned-exclusion :
      (s : Locks Op) (i j x : ℕ) (request request' : Request Op) (todo todo' : List (Request Op))
      → IsOwned s
      → s.pcs i ≡ inside request todo
      → s.pcs j ≡ inside request' todo'
      → uses request x ≡ true
      → uses request' x ≡ true
      → i ≡ j
  IsOwned-exclusion s i j x request request' todo todo' all at at' used used' =
      only_owner (s.mutexes x) i j
        (omega (arith, all i x, ap (λ p. claims p x) at, uses-claims request todo x used))
        (omega (arith, all j x, ap (λ p. claims p x) at', uses-claims request' todo' x used'))

  -- Threads that lock the mutexes of several caches, one at a time for an operation or two by
  -- `lock_pair` for a swap, in any interleaving, are never inside of two operations or swaps at
  -- once that use the same cache.
  pub Reach-exclusion :
      (n : ℕ) (programs : ℕ → List (Request Op)) {s : Locks Op} (i j x : ℕ)
      (request request' : Request Op) (todo todo' : List (Request Op))
      → Reach n programs s
      → s.pcs i ≡ inside request todo
      → s.pcs j ≡ inside request' todo'
      → uses request x ≡ true
      → uses request' x ≡ true
      → i ≡ j
  Reach-exclusion n programs {s} i j x request request' todo todo' reach =
      IsOwned-exclusion s i j x request request' todo todo' (Reach-IsOwned n programs reach)
