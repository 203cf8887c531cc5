-- ===== src/Cache/Locks/Members.antt =====
-- What threads do to several valid caches where a swap goes member by member.
use mathlib.Core.Option
use cachemere.Common.{
  All, ℕ, ◌≡◌, refl, sym, ◌∙◌, ap, subst, fun_ext, Option, none, List, [], ◌∷◌, ◌++◌, arith, ok,
  Outcome-cases, Option-cases, ◌⊎◌, inl, inr, ◌<◌,
}
use cachemere.Item.{Item, size_mod}
use cachemere.Policy.Laws.{RemovalLaws}
use cachemere.Cache.{Cache, Template}
use cachemere.Cache.Invariant.{Contract}
use cachemere.Cache.History.{Command, Reply, step}
use cachemere.Cache.Threads.Serial.{Runs, last, more, of_thread}
use cachemere.Cache.Threads.Histories.{commands_of, TakesLock}
use cachemere.Cache.Swaps.{StoreCommand, store_step, store_run}
use cachemere.Cache.Swaps.Members.{Member, members, advance_swap, exchange_in, exchange_in-members}
use cachemere.Cache.Swaps.Spec.{AreAllowedIn}
use cachemere.Cache.Swaps.Refinement.{IsTameIn, AllReady, all_contents}
use cachemere.Cache.Locks.{Request, on, swaps, inside, assign}
use cachemere.Cache.Locks.Sections.{System, begin_at, advance, Reach}
use cachemere.Cache.Locks.Linear.{todo_of}
use cachemere.Cache.Locks.Histories.{TakesLocks, locks-AreAllowed}

-- Where a thread stands: in an operation, or with members still to exchange.
abbrev pub Place : Type 0 → Type 0
Place L = L ⊎ List Member

module _ {I E C D A L Op : Type 0} (begin : Op → L)
    (advance_one : L → Cache I E C D A → Cache I E C D A × Option L) where
  abbrev pub first_place : Request Op → Place L
  first_place (on x op) = inl (begin op)
  first_place (swaps x y) = inr members

  abbrev pub on_one : Place L → Cache I E C D A → Cache I E C D A × Option (Place L)
  on_one (inl l) c = let (c', l') = advance_one l c in (c', Option.map inl l')
  on_one (inr ms) c = (c, none)

  abbrev pub on_two :
      Place L
      → Cache I E C D A
      → Cache I E C D A
      → Cache I E C D A × Cache I E C D A × Option (Place L)
  on_two (inl l) a b = (a, b, none)
  on_two (inr ms) a b = let (a', b', rest) = advance_swap ms a b in (a', b', Option.map inr rest)

  abbrev RunsIn : Request Op × Place L → (ℕ → Cache I E C D A) → (ℕ → Cache I E C D A) → Type 0
  RunsIn = Runs (begin_at first_place) (advance on_one on_two)

  pub swap-Runs :
      (ms : List Member) (x y : ℕ) (s s' : ℕ → Cache I E C D A)
      → RunsIn (swaps x y, inr ms) s s'
      → s' ≡ exchange_in ms x y s
  unfolding advance advance_swap exchange_in
  swap-Runs [] x y s s' (last done) = sym (ap (λ p. p.0) done)
  swap-Runs [] x y s s' (more goes_on rest) = absurd (ground (arith, ap (λ p. p.1) goes_on))
  swap-Runs (m ∷ ms) x y s s' (last done) = absurd (ground (arith, ap (λ p. p.1) done))
  swap-Runs (m ∷ ms) x y s s' (more {l' = place} {x' = mid} goes_on rest) =
      let there : place ≡ (swaps x y, inr ms) = ground (arith, ap (λ p. p.1) goes_on) in
      swap-Runs ms x y mid s' (subst (λ p. RunsIn p mid s') there rest)
      ∙ ap (exchange_in ms x y) (sym (ap (λ p. p.0) goes_on))

  pub operation-Runs :
      (x : ℕ) (op : Op) (place : Request Op × Place L) (l : L) (s s' : ℕ → Cache I E C D A)
      → place ≡ (on x op, inl l)
      → RunsIn place s s'
      → (c : Cache I E C D A) × Runs begin advance_one l (s x) c × (s' ≡ assign s x c)
  unfolding advance
  operation-Runs x op place l s s' at (last done) =
      let ran = sym (ap (λ p. advance on_one on_two p s) at) ∙ done in
      elim (Option-cases (advance_one l (s x)).1) [
        | inl ended ↦ (
          (advance_one l (s x)).0,
          last (ap (λ o. ((advance_one l (s x)).0, o)) ended),
          sym (ap (λ p. p.0) ran),
        )
        | inr (k, goes_on) ↦ absurd (ground (arith, goes_on, ap (λ p. p.1) ran))
      ]
  operation-Runs x op place l s s' at (more {l' = later} {x' = mid} done rest) =
      let ran = sym (ap (λ p. advance on_one on_two p s) at) ∙ done in
      elim (Option-cases (advance_one l (s x)).1) [
        | inl ended ↦ absurd (ground (arith, ended, ap (λ p. p.1) ran))
        | inr (k, goes_on) ↦
            let now : mid ≡ assign s x (advance_one l (s x)).0 = sym (ap (λ p. p.0) ran) in
            let there : later ≡ (on x op, inl k) = ground (arith, goes_on, ap (λ p. p.1) ran) in
            let (c, runs, result) = operation-Runs x op later k mid s' there rest in
            let here : mid x ≡ (advance_one l (s x)).0 = ap (λ st. st x) now ∙ ground arith in
            (
              c,
              more (ap (λ o. ((advance_one l (s x)).0, o)) goes_on)
                  (subst (λ a. Runs begin advance_one k a c) here runs),
              result ∙ ap (λ st. assign st x c) now ∙ fun_ext (λ z. ground arith),
            )
      ]

module _ {K V I E C D A R L : Type 0} (dec : Discrete K) (t : Template K V I E C D A R)
    (begin : Command K V → L) (advance_one : L → Cache I E C D A → Cache I E C D A × Option L)
    (whole : (command : Command K V) (c c' c'' : Cache I E C D A) (reply : Reply K V)
      → TakesLock command
      → Runs begin advance_one (begin command) c c'
      → step dec t command c ≡ ok (c'', reply)
      → c' ≡ c'') where
  whole_in :
      (request : StoreCommand K V) (s s' s'' : ℕ → Cache I E C D A) (reply : Reply K V)
      → TakesLocks request
      → RunsIn begin advance_one (begin_at (first_place begin advance_one) request) s s'
      → store_step dec t request s ≡ ok (s'', reply)
      → s' ≡ s''
  unfolding store_step
  whole_in (on x command) s s' s'' reply locked runs ran =
      let (c, ran_one, result) =
        operation-Runs begin advance_one x command (on x command, inl (begin command))
          (begin command) s s' refl runs in
      elim (Outcome-cases (step dec t command (s x))) [
        | inr (e, failed) ↦ absurd (ground (arith, failed, ran))
        | inl ((c', reply'), stepped) ↦
            let same = whole command (s x) c c' reply' locked ran_one stepped in
            let done : assign s x c' ≡ s'' = ground (arith, stepped, ran) in
            result ∙ ap (assign s x) same ∙ done
      ]
  whole_in (swaps x y) s s' s'' reply locked runs ran =
      swap-Runs begin advance_one members x y s s' runs
      ∙ exchange_in-members dec t x y s
      ∙ ground (arith, ran)

  module _ {Good : I → Type 0} {Inv : E → Type 0} {weight : Item V → ℕ} {used limit : C → ℕ}
      (laws : Contract dec t Good Inv weight used limit) (CanRemove : Type 0)
      (removal : CanRemove → RemovalLaws dec t.eviction Inv) where
    -- Threads run programs of public operations that take the lock, and of swaps, on several valid
    -- caches, interleaved in any way, step by step: an operation holds the mutex of its cache and a
    -- swap those of both, which `lock_pair` takes in any order and one of which it may give back
    -- before it has the other. A swap exchanges one member after the other; the steps of an
    -- operation are any that, run alone, come to the same cache as it does at once; `remove` and
    -- `retain` are there only if the eviction policy can evict any key that it holds; items are
    -- such that their sizes do not wrap, and limits at most `most`, below the modulus of `size_t`.
    -- Then, whenever no thread is inside of an operation or a swap, the caches are what some
    -- history, one operation or swap after the other, makes of them: each thread's part of the
    -- history is a first part of its program and the rest is what it still has to do, the caches
    -- are valid, and the history has replies that the specification of several maps that may forget
    -- allows.
    pub members-AreAllowed :
        (most n : ℕ) (c : ℕ → Cache I E C D A) (programs : ℕ → List (StoreCommand K V))
        {s : System (Cache I E C D A) (Place L) (Command K V)}
        → most < size_mod
        → AllReady laws most c
        → ((i : ℕ) → All (IsTameIn t weight CanRemove most) (programs i))
        → ((i : ℕ) → All TakesLocks (programs i))
        → Reach
            (on_one begin advance_one)
            (on_two begin advance_one)
            (first_place begin advance_one)
            n
            c
            programs
            s
        → ((i : ℕ) (request : StoreCommand K V) (todo : List (StoreCommand K V))
            → s.locks.pcs i ≡ inside request todo
            → ⊥)
        → (done : List (ℕ × StoreCommand K V)) × (replies : List (Reply K V)) × (store_run dec t
              (commands_of done)
              c
            ≡ ok (s.store, replies))
          × AllReady laws most s.store
          × AreAllowedIn dec (all_contents t c) (all_contents t s.store) (commands_of done) replies
          × ((i : ℕ)
              → of_thread
                    (begin_at (first_place begin advance_one))
                    (advance (on_one begin advance_one) (on_two begin advance_one))
                    i
                    done
                  ++ todo_of (s.locks.pcs i)
                ≡ programs i)
    members-AreAllowed most n c programs fits ready tame locked reach quiet =
        locks-AreAllowed laws CanRemove removal (first_place begin advance_one)
          (on_one begin advance_one) (on_two begin advance_one) whole_in most n c programs fits
          ready tame locked reach quiet
