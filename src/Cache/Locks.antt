-- ===== src/Cache/Locks.antt =====
-- include/cachemere/cache.hpp: `lock`, deferred or not, and `lock_pair`, among threads that work on
-- several thread-safe caches. `std::lock` takes the two mutexes in any order by `try_lock`, and may give
-- back the one that it has. What a thread does to the caches inside of an operation is left out.
pub mod Ownership
pub mod Exclusion
pub mod Alone
pub mod Finish
pub mod Sections
pub mod Linear
pub mod Histories
pub mod Members
use cachemere.Common.{
  ℕ, zero, suc, ◌+◌, ◌<◌, ◌≡◌, ◌⊎◌, Bool, true, false, Option, none, some, List, [], ◌∷◌, ◌==◌,
  if◌then◌else◌,
}

-- `std::recursive_mutex`: its owner, and how many times it has locked it after the first.
abbrev pub RecursiveMutex : Type 0
RecursiveMutex = Option (ℕ × ℕ)

-- `lock` waits where `try_lock` fails, and does the same where it does not.
unfoldable pub try_lock : ℕ → RecursiveMutex → Option RecursiveMutex
try_lock i none = some (some (i, 0))
try_lock i (some (j, n)) = if j == i then some (some (j, suc n)) else none

unfoldable pub unlock : RecursiveMutex → RecursiveMutex
unlock none = none
unlock (some (j, zero)) = none
unlock (some (j, suc n)) = some (j, n)

-- An operation on one cache, or `swap` of two, which may be the same.
pub data Request (Op : Type 0) : Type 0 where
  on : ℕ → Op → Request Op
  swaps : ℕ → ℕ → Request Op

-- Where a thread stands, with what it still has to do. `pairing` is inside of `lock_pair`: the guards
-- have been made, and tell whether they own their mutexes.
pub data Pc (Op : Type 0) : Type 0 where
  waiting : List (Request Op) → Pc Op
  pairing : ℕ → ℕ → Bool → Bool → List (Request Op) → Pc Op
  inside : Request Op → List (Request Op) → Pc Op

-- `mutexes` has the `m_mutex` of each cache.
pub record Locks (Op : Type 0) : Type 0 where
  pub mutexes : ℕ → RecursiveMutex
  pub pcs : ℕ → Pc Op

-- The function with `a` at `i`.
abbrev pub assign : {A : Type 0} → (ℕ → A) → ℕ → A → ℕ → A
assign f i a j = if i == j then a else f j

abbrev pub unlock_at : ℕ → (ℕ → RecursiveMutex) → ℕ → RecursiveMutex
unlock_at x ms = assign ms x (unlock (ms x))

-- The guards are destroyed, the last one first.
abbrev pub release : {Op : Type 0} → Request Op → (ℕ → RecursiveMutex) → ℕ → RecursiveMutex
release (on x op) ms = unlock_at x ms
release (swaps x y) ms = unlock_at x (unlock_at y ms)

-- A move of thread `i`.
pub data Move {Op : Type 0} (i : ℕ) (ms ms' : ℕ → RecursiveMutex) (pc pc' : Pc Op) : Type 0 where
  locks :
      (x : ℕ) (op : Op) (todo : List (Request Op)) (m : RecursiveMutex)
      → pc ≡ waiting (on x op ∷ todo)
      → try_lock i (ms x) ≡ some m
      → ms' ≡ assign ms x m
      → pc' ≡ inside (on x op) todo
      → Move i ms ms' pc pc'
  defers :
      (x y : ℕ) (todo : List (Request Op))
      → pc ≡ waiting (swaps x y ∷ todo)
      → ms' ≡ ms
      → pc' ≡ pairing x y false false todo
      → Move i ms ms' pc pc'
  takes_first :
      (x y : ℕ) (second : Bool) (todo : List (Request Op)) (m : RecursiveMutex)
      → pc ≡ pairing x y false second todo
      → try_lock i (ms x) ≡ some m
      → ms' ≡ assign ms x m
      → pc' ≡ pairing x y true second todo
      → Move i ms ms' pc pc'
  takes_second :
      (x y : ℕ) (first : Bool) (todo : List (Request Op)) (m : RecursiveMutex)
      → pc ≡ pairing x y first false todo
      → try_lock i (ms y) ≡ some m
      → ms' ≡ assign ms y m
      → pc' ≡ pairing x y first true todo
      → Move i ms ms' pc pc'
  gives_first :
      (x y : ℕ) (todo : List (Request Op))
      → pc ≡ pairing x y true false todo
      → ms' ≡ unlock_at x ms
      → pc' ≡ pairing x y false false todo
      → Move i ms ms' pc pc'
  gives_second :
      (x y : ℕ) (todo : List (Request Op))
      → pc ≡ pairing x y false true todo
      → ms' ≡ unlock_at y ms
      → pc' ≡ pairing x y false false todo
      → Move i ms ms' pc pc'
  enters :
      (x y : ℕ) (todo : List (Request Op))
      → pc ≡ pairing x y true true todo
      → ms' ≡ ms
      → pc' ≡ inside (swaps x y) todo
      → Move i ms ms' pc pc'
  leaves :
      (request : Request Op) (todo : List (Request Op))
      → pc ≡ inside request todo
      → ms' ≡ release request ms
      → pc' ≡ waiting todo
      → Move i ms ms' pc pc'

-- A step of one of `n` threads.
pub data Step {Op : Type 0} (n : ℕ) (s s' : Locks Op) : Type 0 where
  moves :
      (i : ℕ) (pc : Pc Op)
      → i < n
      → Move i s.mutexes s'.mutexes (s.pcs i) pc
      → s'.pcs ≡ assign s.pcs i pc
      → Step n s s'

abbrev pub launched : {Op : Type 0} → (ℕ → List (Request Op)) → Locks Op
launched programs = record { mutexes = λ x. none; pcs = λ i. waiting (programs i) }

pub data Reach {Op : Type 0} (n : ℕ) (programs : ℕ → List (Request Op)) : Locks Op → Type 0 where
  start : Reach n programs (launched programs)
  next : {s s' : Locks Op} → Reach n programs s → Step n s s' → Reach n programs s'
