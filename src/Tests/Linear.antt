-- ===== src/Tests/Linear.antt =====
-- The theorem on interleaved operations and swaps, at the two threads of Tests/Locks, up to the end of
-- both. An operation is one step, and the swap goes member by member.
use cachemere.Common.{
  All, ℕ, ◌≡◌, refl, sym, ◌∙◌, ap, inl, inr, Bool, true, false, Option, none, some, ℕ_discrete,
  List, [], ◌∷◌, ◌++◌, arith, Outcome, ok, fault, ◌==◌, if◌then◌else◌, Bool-cases,
}
use cachemere.Cache.History.{Command, finds, Reply, step}
use cachemere.Cache.Threads.Serial.{Runs, last, more, of_thread}
use cachemere.Cache.Threads.Histories.{commands_of, TakesLock}
use cachemere.Cache.Swaps.{StoreCommand, store_run}
use cachemere.Cache.Swaps.Spec.{AreAllowedIn}
use cachemere.Cache.Swaps.Refinement.{IsTameIn, AllReady, all_contents}
use cachemere.Cache.Locks.{
  RecursiveMutex, try_lock, on, swaps, Pc, waiting, pairing, inside, Locks, assign, unlock_at,
  locks, defers, takes_first, takes_second, enters, release,
}
use cachemere.Cache.Locks
use cachemere.Cache.Locks.Sections.{
  System, started, Step, begin_at, advance, outside, works, ends, Reach, start, next,
}
use cachemere.Cache.Locks.Linear.{todo_of}
use cachemere.Cache.Locks.Histories.{TakesLocks}
use cachemere.Cache.Locks.Members.{Place, first_place, on_one, on_two, members-AreAllowed}
use cachemere.Cache.Swaps.Members.{Member, members, advance_swap}
use cachemere.Tests.{NumberCache, numbers, numbers-Contract, numbers-RemovalLaws, two_items}
use cachemere.Tests.Swaps.{same_items, same_items-AllReady}
use cachemere.Tests.Locks.{programs, second_inside, found_one, deferred, one_lock}

abbrev after : NumberCache → Outcome (NumberCache × Reply ℕ ℕ) → NumberCache
after c (ok p) = p.0
after c (fault e) = c

abbrev begin : Command ℕ ℕ → Command ℕ ℕ
begin command = command

abbrev at_once : Command ℕ ℕ → NumberCache → NumberCache × Option (Command ℕ ℕ)
at_once command c = (after c (step ℕ_discrete numbers command c), none)

whole :
    (command : Command ℕ ℕ) (c c' c'' : NumberCache) (reply : Reply ℕ ℕ)
    → TakesLock command
    → Runs begin at_once (begin command) c c'
    → step ℕ_discrete numbers command c ≡ ok (c'', reply)
    → c' ≡ c''
whole command c c' c'' reply locked (last done) ran = sym (ap (λ p. p.0) done) ∙ ap (after c) ran
whole command c c' c'' reply locked (more goes_on rest) ran =
    absurd (ground (arith, ap (λ p. p.1) goes_on))

abbrev CacheSystem : Type 0
CacheSystem = System NumberCache (Place (Command ℕ ℕ)) (Command ℕ ℕ)

abbrev Arrives : CacheSystem → Type 0
Arrives =
    Reach (on_one begin at_once) (on_two begin at_once) (first_place begin at_once) 2 same_items
      programs

abbrev Moves : CacheSystem → CacheSystem → Type 0
Moves = Step (on_one begin at_once) (on_two begin at_once) (first_place begin at_once) 2

abbrev looked_up : ℕ → NumberCache
looked_up = assign same_items 0 (after two_items (step ℕ_discrete numbers (finds 1) two_items))

abbrev finding : CacheSystem
finding = record {
  locks = second_inside;
  store = same_items;
  places = assign (λ i. none) 1 (some (inl (finds 1)));
}

abbrev has_found : CacheSystem
has_found = record { locks = found_one; store = looked_up; places = assign finding.places 1 none }

abbrev about_to_swap : CacheSystem
about_to_swap = record {
  locks = deferred;
  store = looked_up;
  places = assign has_found.places 0 none;
}

abbrev half_locked : CacheSystem
half_locked = record {
  locks = one_lock;
  store = looked_up;
  places = assign about_to_swap.places 0 none;
}

abbrev all_locked : CacheSystem
all_locked = record {
  locks = record {
    mutexes = assign one_lock.mutexes 1 (some (0, 0));
    pcs = assign one_lock.pcs 0 (pairing 0 1 true true []);
  };
  store = looked_up;
  places = assign half_locked.places 0 none;
}

abbrev swapping : CacheSystem
swapping = record {
  locks = record {
    mutexes = all_locked.locks.mutexes;
    pcs = assign all_locked.locks.pcs 0 (inside (swaps 0 1) []);
  };
  store = looked_up;
  places = assign all_locked.places 0 (some (inr members));
}

abbrev acts :
    StoreCommand ℕ ℕ × Place (Command ℕ ℕ)
    → (ℕ → NumberCache)
    → (ℕ → NumberCache) × Option (StoreCommand ℕ ℕ × Place (Command ℕ ℕ))
acts = advance (on_one begin at_once) (on_two begin at_once)

found : acts (on 0 (finds 1), inl (finds 1)) same_items ≡ (looked_up, none)
unfolding advance
found = refl

swapping-Arrives : Arrives swapping
unfolding try_lock Locks.unlock
swapping-Arrives =
    let first : Moves (started same_items programs) finding =
      outside 1 (inside (on 0 (finds 1)) []) (omega arith) tt
        (locks 0 (finds 1) [] (some (1, 0)) refl refl refl refl) refl refl refl in
    let second : Moves finding has_found =
      ends 1 (on 0 (finds 1)) [] (inl (finds 1)) looked_up (omega arith) refl refl found refl in
    let third : Moves has_found about_to_swap =
      outside 0 (pairing 0 1 false false []) (omega arith) tt (defers 0 1 [] refl refl refl) refl
        refl refl in
    let fourth : Moves about_to_swap half_locked =
      outside 0 (pairing 0 1 true false []) (omega arith) tt
        (takes_first 0 1 false [] (some (0, 0)) refl refl refl refl) refl refl refl in
    let fifth : Moves half_locked all_locked =
      outside 0 (pairing 0 1 true true []) (omega arith) tt
        (takes_second 0 1 true [] (some (0, 0)) refl refl refl refl) refl refl refl in
    let sixth : Moves all_locked swapping =
      outside 0 (inside (swaps 0 1) []) (omega arith) tt (enters 0 1 [] refl refl refl) refl refl
        refl in
    next (next (next (next (next (next start first) second) third) fourth) fifth) sixth

abbrev store_after : List Member → (ℕ → NumberCache) → ℕ → NumberCache
store_after ms s = (acts (swaps 0 1, inr ms) s).0

-- After the exchanges that are left, and the end of the swap.
abbrev finished : List Member → CacheSystem → CacheSystem
finished [] s = record {
  locks = record {
    mutexes = release {Op = Command ℕ ℕ} (swaps 0 1) s.locks.mutexes;
    pcs = assign s.locks.pcs 0 (waiting []);
  };
  store = store_after [] s.store;
  places = assign s.places 0 none;
}
finished (m ∷ ms) s = finished ms (record {
  locks = s.locks;
  store = store_after (m ∷ ms) s.store;
  places = assign s.places 0 (some (inr ms));
})

finished-Arrives :
    (ms : List Member) (s : CacheSystem)
    → Arrives s
    → s.locks.pcs 0 ≡ inside (swaps 0 1) []
    → s.places 0 ≡ some (inr ms)
    → Arrives (finished ms s)
unfolding advance advance_swap
finished-Arrives [] s arrives at place =
    next arrives
      (ends 0 (swaps 0 1) [] (inr []) (store_after [] s.store) (omega arith) at place refl refl)
finished-Arrives (m ∷ ms) s arrives at place =
    let moved : CacheSystem = record {
      locks = s.locks;
      store = store_after (m ∷ ms) s.store;
      places = assign s.places 0 (some (inr ms));
    } in
    finished-Arrives ms moved
      (next arrives (
        works 0 (swaps 0 1) [] (inr (m ∷ ms)) (inr ms) (store_after (m ∷ ms) s.store) (omega arith)
          at place refl refl))
      at refl

abbrev swapped : CacheSystem
swapped = finished members swapping

All-if :
    (Q : StoreCommand ℕ ℕ → Type 0) (b : Bool) (xs ys : List (StoreCommand ℕ ℕ))
    → All Q xs
    → All Q ys
    → All Q (if b then xs else ys)
All-if Q true xs ys h k = h
All-if Q false xs ys h k = k

programs-All :
    (Q : StoreCommand ℕ ℕ → Type 0)
    → Q (swaps 0 1)
    → Q (on 0 (finds 1))
    → (i : ℕ) → All Q (programs i)
programs-All Q h k i =
    All-if Q (i == 0) (swaps 0 1 ∷ []) (if i == 1 then on 0 (finds 1) ∷ [] else []) (h, tt)
      (All-if Q (i == 1) (on 0 (finds 1) ∷ []) [] (k, tt) tt)

none_inside :
    (i : ℕ) (request : StoreCommand ℕ ℕ) (todo : List (StoreCommand ℕ ℕ))
    → swapped.locks.pcs i ≡ inside request todo
    → ⊥
none_inside i request todo at = elim (Bool-cases (0 == i)) [
  | inl zeroth ↦ absurd (ground (arith, zeroth, at))
  | inr other ↦ elim (Bool-cases (1 == i)) [
    | inl first ↦ absurd (ground (arith, other, first, at))
    | inr neither ↦ absurd (ground (arith, other, neither, at))
  ]
]

members-AreAllowed_example :
    (done : List (ℕ × StoreCommand ℕ ℕ)) × (replies : List (Reply ℕ ℕ)) × (store_run ℕ_discrete
        numbers
        (commands_of done)
        same_items
      ≡ ok (swapped.store, replies))
    × AllReady numbers-Contract 100 swapped.store
    × AreAllowedIn ℕ_discrete
        (all_contents numbers same_items)
        (all_contents numbers swapped.store)
        (commands_of done)
        replies
    × ((i : ℕ)
        → of_thread
              (begin_at (first_place begin at_once))
              (advance (on_one begin at_once) (on_two begin at_once))
              i
              done
            ++ todo_of (swapped.locks.pcs i)
          ≡ programs i)
members-AreAllowed_example =
    members-AreAllowed ℕ_discrete numbers begin at_once whole numbers-Contract Unit
      (λ u. numbers-RemovalLaws) 100 2 same_items programs (omega arith) same_items-AllReady
      (programs-All (IsTameIn numbers (λ item. item.total_size) Unit 100) tt tt)
      (programs-All TakesLocks tt tt) (finished-Arrives members swapping swapping-Arrives refl refl)
      none_inside
