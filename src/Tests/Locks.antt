-- ===== src/Tests/Locks.antt =====
-- The theorems on the mutexes of several caches: two threads, of which one swaps two caches and the
-- other looks up a key in the first.
use cachemere.Common.{
  ℕ, ◌≡◌, ◌<◌, refl, true, false, none, some, List, [], ◌∷◌, arith, ◌==◌, if◌then◌else◌,
}
use cachemere.Cache.History.{Command, finds}
use cachemere.Cache.Swaps.{StoreCommand}
use cachemere.Cache.Locks.{
  RecursiveMutex, try_lock, on, swaps, Pc, waiting, pairing, inside, Locks, assign, unlock_at,
  locks, defers, takes_first, leaves, moves,
}
use cachemere.Cache.Locks
use cachemere.Cache.Locks.Alone.{Steps}
use cachemere.Cache.Locks.Exclusion.{Reach-exclusion}
use cachemere.Cache.Locks.Finish.{Reach-finish}

abbrev pub programs : ℕ → List (StoreCommand ℕ ℕ)
programs i = if i == 0 then swaps 0 1 ∷ [] else if i == 1 then on 0 (finds 1) ∷ [] else []

-- Thread 1 has found key 1 in cache 0, and thread 0 has one of its two locks.
abbrev pub second_inside : Locks (Command ℕ ℕ)
second_inside = record {
  mutexes = assign (λ x. none) 0 (some (1, 0));
  pcs = assign (λ i. waiting (programs i)) 1 (inside (on 0 (finds 1)) []);
}

abbrev pub found_one : Locks (Command ℕ ℕ)
found_one = record {
  mutexes = unlock_at 0 second_inside.mutexes;
  pcs = assign second_inside.pcs 1 (waiting []);
}

abbrev pub deferred : Locks (Command ℕ ℕ)
deferred = record {
  mutexes = found_one.mutexes;
  pcs = assign found_one.pcs 0 (pairing 0 1 false false []);
}

abbrev pub one_lock : Locks (Command ℕ ℕ)
one_lock = record {
  mutexes = assign deferred.mutexes 0 (some (0, 0));
  pcs = assign deferred.pcs 0 (pairing 0 1 true false []);
}

second_inside-Reach : Locks.Reach 2 programs second_inside
unfolding try_lock
second_inside-Reach = Locks.next Locks.start (
    moves 1 (inside (on 0 (finds 1)) []) (omega arith)
      (locks 0 (finds 1) [] (some (1, 0)) refl refl refl refl) refl)

one_lock-Reach : Locks.Reach 2 programs one_lock
unfolding try_lock Locks.unlock
one_lock-Reach =
    Locks.next
      (Locks.next
        (Locks.next second_inside-Reach
          (moves 1 (waiting []) (omega arith) (leaves (on 0 (finds 1)) [] refl refl refl) refl))
        (moves 0 (pairing 0 1 false false []) (omega arith) (defers 0 1 [] refl refl refl) refl))
      (moves 0 (pairing 0 1 true false []) (omega arith)
        (takes_first 0 1 false [] (some (0, 0)) refl refl refl refl) refl)

Reach-exclusion_example : ◌≡◌ {A = ℕ} 1 1
Reach-exclusion_example =
    Reach-exclusion 2 programs 1 1 0 (on 0 (finds 1)) (on 0 (finds 1)) [] [] second_inside-Reach
      refl refl refl refl

Reach-finish_example :
    (s' : Locks (Command ℕ ℕ)) × Steps 2 one_lock s'
    × ((i : ℕ) → i < 2 → s'.pcs i ≡ waiting [])
    × ((x : ℕ) → s'.mutexes x ≡ none)
Reach-finish_example = Reach-finish 2 programs one_lock-Reach
