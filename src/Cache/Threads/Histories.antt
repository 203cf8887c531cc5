-- ===== src/Cache/Threads/Histories.antt =====
-- What threads do to a valid cache, as a history of it.
use cachemere.Common.{
  run_all, run_all-snoc, All, All-map, All-left, All-last, All-both, ℕ, ◌<◌, ◌≡◌, refl, sym, ◌∙◌,
  ap, Option, none, List, [], ◌∷◌, ◌++◌, arith, ok, ok_inj, ℕ_discrete, subst, inl, inr,
}
use cachemere.Item.{Item, size_mod}
use cachemere.Policy.Laws.{RemovalLaws}
use cachemere.Cache.{Cache, Template}
use cachemere.Cache.Invariant.{Contract}
use cachemere.Cache.History.{Command, resizes, Reply, step, run}
use cachemere.Cache.History.Spec.{AreAllowed}
use cachemere.Cache.History.Answers.{contents, IsTame, IsReady}
use cachemere.Cache.History.Commands.{command-IsAnswered}
use cachemere.Cache.History.Refinement.{AreTame, run-AreAllowed}
use cachemere.Cache.Threads.{System, waiting, Reach}
use cachemere.Cache.Threads.Serial.{Runs, Serially, nothing, then_one, of_thread, Reach-IsSerial}

-- The operations, without the threads that did them.
abbrev pub commands_of : {Op : Type 0} → List (ℕ × Op) → List Op
commands_of [] = []
commands_of (d ∷ done) = d.1 ∷ commands_of done

pub commands_of-snoc :
    {Op : Type 0} (done : List (ℕ × Op)) (i : ℕ) (op : Op)
    → commands_of (done ++ (i, op) ∷ []) ≡ commands_of done ++ op ∷ []
commands_of-snoc [] i op = refl
commands_of-snoc (d ∷ done) i op = ap (◌∷◌ d.1) (commands_of-snoc done i op)

pub commands_of-All :
    {S L Op : Type 0} (begin : Op → L) (advance : L → S → S × Option L) (P : Op → Type 0)
    (done : List (ℕ × Op))
    → ((i : ℕ) → All P (of_thread begin advance i done))
    → All P (commands_of done)
unfolding of_thread
commands_of-All begin advance P [] all = tt
commands_of-All begin advance P (d ∷ done) all =
    let first : of_thread begin advance d.0 (d ∷ done) ≡ d.1 ∷ of_thread begin advance d.0 done =
      ground arith in
    let all' = subst (All P) first (all d.0) in
    (
      all'.0,
      commands_of-All begin advance P done (λ i. elim (ℕ_discrete d.0 i) [
        | yes same ↦ subst (λ j. All P (of_thread begin advance j done)) same all'.1
        | no other ↦
            let skipped : of_thread begin advance i (d ∷ done) ≡ of_thread begin advance i done =
              ground (arith, other) in
            subst (All P) skipped (all i)
      ]),
    )

-- `statistics_window_size` is the one command that takes no lock.
abbrev pub TakesLock : {K V : Type 0} → Command K V → Type 0
TakesLock (resizes window_size) = ⊥
TakesLock _ = Unit

module _ {K V I E C D A R L : Type 0} {dec : Discrete K} {t : Template K V I E C D A R}
    {Good : I → Type 0} {Inv : E → Type 0} {weight : Item V → ℕ} {used limit : C → ℕ}
    (laws : Contract dec t Good Inv weight used limit) (CanRemove : Type 0)
    (removal : CanRemove → RemovalLaws dec t.eviction Inv) (begin : Command K V → L)
    (advance : L → Cache I E C D A → Cache I E C D A × Option L)
    (whole : (command : Command K V) (c c' c'' : Cache I E C D A) (reply : Reply K V)
      → TakesLock command
      → Runs begin advance (begin command) c c'
      → step dec t command c ≡ ok (c'', reply)
      → c' ≡ c'') where
  abbrev IsLockedTame : ℕ → Command K V → Type 0
  IsLockedTame most command = IsTame t weight CanRemove most command × TakesLock command

  serial_run :
      (most : ℕ) (c : Cache I E C D A) {c' : Cache I E C D A} {done : List (ℕ × Command K V)}
      → most < size_mod
      → IsReady laws most c
      → Serially begin advance c done c'
      → All (IsLockedTame most) (commands_of done)
      → (replies : List (Reply K V)) × (run dec t (commands_of done) c ≡ ok (c', replies))
        × IsReady laws most c'
  unfolding run run_all
  serial_run most c fits ready nothing tame = ([], refl, ready)
  serial_run most c fits ready (then_one {done} {x'} {x''} i op before runs) tame =
      let split = commands_of-snoc done i op in
      let tame' = subst (All (IsLockedTame most)) split tame in
      let (replies, ran, ready') =
        serial_run most c fits ready before
          (All-left (IsLockedTame most) (commands_of done) (op ∷ []) tame') in
      let good = All-last (IsLockedTame most) (commands_of done) op tame' in
      let a = command-IsAnswered laws CanRemove removal most op x' fits ready' good.0 in
      let same : x'' ≡ a.after = whole op x' x'' a.after a.reply good.1 runs a.ran in
      (
        replies ++ a.reply ∷ [],
        ap (λ commands. run dec t commands c) split
            ∙ run_all-snoc (step dec t) (commands_of done) op c x' a.after replies a.reply ran a.ran
            ∙ ap (λ y. ok (y, replies ++ a.reply ∷ [])) (sym same),
        subst (IsReady laws most) (sym same) a.ready,
      )

  -- Threads run programs of public operations that take the lock, which are all but the setter of
  -- the window, on one valid cache, with `remove` and `retain` only if its eviction policy can
  -- evict any key that it holds, interleaved in any way, where an operation holds the mutex from
  -- its first step to its last, and its steps come to the same cache as the operation alone.
  -- Whenever the mutex is free, no thread is inside of an operation, and the cache is what some
  -- history, one operation after the other, makes of it: each thread's part of the history is a
  -- first part of its program and the rest is what it still has to do, the cache is valid, and the
  -- history has replies that the specification of a map that may forget allows. Items are such that
  -- their sizes do not wrap, and limits at most `most`, below the modulus of `size_t`.
  pub threads-AreAllowed :
      (most n : ℕ) (c : Cache I E C D A) (programs : ℕ → List (Command K V))
      {s : System (Cache I E C D A) L (Command K V)}
      → most < size_mod
      → IsReady laws most c
      → ((i : ℕ) → AreTame t weight CanRemove most (programs i))
      → ((i : ℕ) → All TakesLock (programs i))
      → Reach begin advance n c programs s
      → s.mutex ≡ none
      → (done : List (ℕ × Command K V)) × (replies : List (Reply K V)) × (run dec t
            (commands_of done)
            c
          ≡ ok (s.shared, replies))
        × IsReady laws most s.shared
        × AreAllowed dec (contents t c) (contents t s.shared) (commands_of done) replies
        × ((i : ℕ)
            → (todo : List (Command K V)) × (s.pcs i ≡ waiting todo)
              × (of_thread begin advance i done ++ todo ≡ programs i))
  threads-AreAllowed most n c programs {s} fits ready tame locked reach free =
      elim (Reach-IsSerial begin advance n c programs reach) [
        | inr v ↦ absurd (ground (arith, v.held, free))
        | inl v ↦
            let good = commands_of-All begin advance (IsLockedTame most) v.done (λ i.
              All-left (IsLockedTame most) (of_thread begin advance i v.done) (v.todo i) (
                subst (All (IsLockedTame most)) (sym (v.order i)) (
                  All-both (IsTame t weight CanRemove most) TakesLock (programs i) (tame i)
                    (locked i)))) in
            let tame' =
              All-map (IsLockedTame most) (IsTame t weight CanRemove most) (λ x h. h.0)
                (commands_of v.done) good in
            let (replies, ran, ready') = serial_run most c fits ready v.serial good in
            let (c', replies', ran', ready'', allowed) =
              run-AreAllowed laws CanRemove removal most (commands_of v.done) c fits ready tame' in
            let a : Cache I E C D A × List (Reply K V) = (c', replies') in
            let b : Cache I E C D A × List (Reply K V) = (s.shared, replies) in
            let same : a ≡ b = ok_inj a b (sym ran' ∙ ran) in
            (
              v.done,
              replies,
              ran,
              ready',
              subst (λ p. AreAllowed dec (contents t c) (contents t p.0) (commands_of v.done) p.1)
                  same allowed,
              λ i. (v.todo i, v.all_wait i, v.order i),
            )
      ]
