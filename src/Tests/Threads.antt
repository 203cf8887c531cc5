-- ===== src/Tests/Threads.antt =====
-- The theorems on threads: two of them share the test cache. An operation has two steps: a first one
-- that changes nothing, and one that does it all.
use cachemere.Common.{
  All, ℕ, ◌≡◌, refl, sym, ◌∙◌, ap, ite, Bool, true, false, Option, none, some, List, [], ◌∷◌, ◌++◌,
  arith, Outcome, ok, fault, ℕ_discrete,
}
use cachemere.Cache.History.{Command, finds, asks, removes, Reply, step, run}
use cachemere.Cache.History.Spec.{AreAllowed}
use cachemere.Cache.History.Answers.{contents, IsReady, IsTame}
use cachemere.Cache.History.Refinement.{AreTame}
use cachemere.Cache.Threads.{waiting, working, System, locks, works, unlocks, Reach, start, next}
use cachemere.Cache.Threads.Serial.{Runs, last, more, of_thread}
use cachemere.Cache.Threads.Histories.{commands_of, TakesLock, threads-AreAllowed}
use cachemere.Tests.{
  NumberCache, numbers, numbers-Contract, numbers-RemovalLaws, two_items, two_items-Valid,
  two_items-limit,
}

abbrev after : NumberCache → Outcome (NumberCache × Reply ℕ ℕ) → NumberCache
after c (ok p) = p.0
after c (fault e) = c

abbrev Place : Type 0
Place = Bool × Command ℕ ℕ

abbrev begin : Command ℕ ℕ → Place
begin command = (false, command)

abbrev advance : Place → NumberCache → NumberCache × Option Place
advance (false, command) c = (c, some (true, command))
advance (true, command) c = (after c (step ℕ_discrete numbers command c), none)

-- The second step.
ends :
    (l : Place) (command : Command ℕ ℕ) (c c' c'' : NumberCache) (reply : Reply ℕ ℕ)
    → l ≡ (true, command)
    → Runs begin advance l c c'
    → step ℕ_discrete numbers command c ≡ ok (c'', reply)
    → c' ≡ c''
ends l command c c' c'' reply e (last done) ran =
    sym (ap (λ p. p.0) done) ∙ ap (λ k. (advance k c).0) e ∙ ap (after c) ran
ends l command c c' c'' reply e (more goes_on rest) ran =
    absurd (ground (arith, sym (ap (λ k. (advance k c).1) e) ∙ ap (λ p. p.1) goes_on))

some_inj : (a b : Place) → some a ≡ some b → a ≡ b
some_inj a b e = cc

whole :
    (command : Command ℕ ℕ) (c c' c'' : NumberCache) (reply : Reply ℕ ℕ)
    → TakesLock command
    → Runs begin advance (begin command) c c'
    → step ℕ_discrete numbers command c ≡ ok (c'', reply)
    → c' ≡ c''
whole command c c' c'' reply locked (last done) ran = absurd (ground (arith, ap (λ p. p.1) done))
whole command c c' c'' reply locked (more {l} {l'} {x} {x'} {x''} goes_on rest) ran =
    let same : c ≡ x' = ap (λ p. p.0) goes_on in
    let place : l' ≡ (true, command) = sym (some_inj (true, command) l' (ap (λ p. p.1) goes_on)) in
    ends l' command x' c' c'' reply place rest
      (ap (step ℕ_discrete numbers command) (sym same) ∙ ran)

abbrev programs : ℕ → List (Command ℕ ℕ)
programs i = ite (ℕ_discrete i 0) (finds 1 ∷ removes 1 ∷ []) (ite (ℕ_discrete i 1) (asks 1 ∷ []) [])

All-ite :
    {P : Type 0} (Q : Command ℕ ℕ → Type 0) (d : Dec P) (xs ys : List (Command ℕ ℕ))
    → All Q xs
    → All Q ys
    → All Q (ite d xs ys)
All-ite Q (yes p) xs ys h k = h
All-ite Q (no np) xs ys h k = k

programs-AreTame : (i : ℕ) → AreTame numbers (λ item. item.total_size) Unit 100 (programs i)
programs-AreTame i =
    let Tame = IsTame numbers (λ item. item.total_size) Unit 100 in
    All-ite Tame (ℕ_discrete i 0) (finds 1 ∷ removes 1 ∷ []) (ite (ℕ_discrete i 1) (asks 1 ∷ []) [])
      (tt, (tt, tt)) (All-ite Tame (ℕ_discrete i 1) (asks 1 ∷ []) [] (tt, tt) tt)

programs-TakesLock : (i : ℕ) → All TakesLock (programs i)
programs-TakesLock i =
    All-ite TakesLock (ℕ_discrete i 0) (finds 1 ∷ removes 1 ∷ [])
      (ite (ℕ_discrete i 1) (asks 1 ∷ []) []) (tt, (tt, tt))
      (All-ite TakesLock (ℕ_discrete i 1) (asks 1 ∷ []) [] (tt, tt) tt)

-- Thread 0 has found key 1.
abbrev found_one : System NumberCache Place (Command ℕ ℕ)
found_one = record {
  shared = after two_items (step ℕ_discrete numbers (finds 1) two_items);
  mutex = none;
  pcs = λ i. ite (ℕ_discrete 0 i) (waiting (removes 1 ∷ [])) (
      ite (ℕ_discrete 0 i) (working (true, finds 1) (removes 1 ∷ []))
        (ite (ℕ_discrete 0 i) (working (false, finds 1) (removes 1 ∷ [])) (waiting (programs i))));
}

found_one-Reach : Reach begin advance 2 two_items programs found_one
unfolding ℕ_discrete
found_one-Reach =
    next
      (next (next start (locks 0 (finds 1) (removes 1 ∷ []) (omega arith) refl refl refl)) (
        works 0 (false, finds 1) (true, finds 1) (removes 1 ∷ []) two_items (omega arith) refl refl
          refl))
      (unlocks 0 (true, finds 1) (removes 1 ∷ [])
        (after two_items (step ℕ_discrete numbers (finds 1) two_items)) (omega arith) refl refl
        refl)

threads-AreAllowed_example :
    (done : List (ℕ × Command ℕ ℕ)) × (replies : List (Reply ℕ ℕ)) × (run ℕ_discrete numbers
        (commands_of done)
        two_items
      ≡ ok (found_one.shared, replies))
    × IsReady numbers-Contract 100 found_one.shared
    × AreAllowed ℕ_discrete
        (contents numbers two_items)
        (contents numbers found_one.shared)
        (commands_of done)
        replies
    × ((i : ℕ)
        → (todo : List (Command ℕ ℕ)) × (found_one.pcs i ≡ waiting todo)
          × (of_thread begin advance i done ++ todo ≡ programs i))
threads-AreAllowed_example =
    threads-AreAllowed numbers-Contract Unit (λ u. numbers-RemovalLaws) begin advance whole 100 2
      two_items programs (omega arith)
      (record { valid = two_items-Valid; limited = omega (arith, two_items-limit) })
      programs-AreTame programs-TakesLock found_one-Reach refl
