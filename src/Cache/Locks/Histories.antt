-- ===== src/Cache/Locks/Histories.antt =====
-- What threads do to several valid caches, as a history of operations and swaps.
use cachemere.Common.{
  All, All-map, All-left, All-last, All-both, run_all, run_all-snoc, ℕ, ◌<◌, ◌≡◌, refl, sym, ◌∙◌,
  ap, subst, fun_ext, Option, List, [], ◌∷◌, ◌++◌, ok, ok_inj,
}
use cachemere.Item.{Item, size_mod}
use cachemere.Policy.Laws.{RemovalLaws}
use cachemere.Cache.{Cache, Template}
use cachemere.Cache.Invariant.{Contract}
use cachemere.Cache.History.{Command, Reply}
use cachemere.Cache.Threads.Serial.{Runs, Serially, nothing, then_one, of_thread}
use cachemere.Cache.Threads.Histories.{commands_of, commands_of-snoc, commands_of-All, TakesLock}
use cachemere.Cache.Swaps.{StoreCommand, store_step, store_run}
use cachemere.Cache.Swaps.Spec.{AreAllowedIn}
use cachemere.Cache.Swaps.Refinement.{
  IsTameIn, AllReady, all_contents, request-IsAnsweredIn, store_run-AreAllowed,
}
use cachemere.Cache.Locks.{on, swaps, inside}
use cachemere.Cache.Locks.Sections.{System, begin_at, advance, Reach}
use cachemere.Cache.Locks.Linear.{todo_of}
use cachemere.Cache.Locks.Linear.Inside.{Reach-IsLinear}

-- `swap` takes both locks.
abbrev pub TakesLocks : {K V : Type 0} → StoreCommand K V → Type 0
TakesLocks (on i command) = TakesLock command
TakesLocks (swaps lhs rhs) = Unit

module _ {K V I E C D A R L : Type 0} {dec : Discrete K} {t : Template K V I E C D A R}
    {Good : I → Type 0} {Inv : E → Type 0} {weight : Item V → ℕ} {used limit : C → ℕ}
    (laws : Contract dec t Good Inv weight used limit) (CanRemove : Type 0)
    (removal : CanRemove → RemovalLaws dec t.eviction Inv) (begin : StoreCommand K V → L)
    (advance_one : L → Cache I E C D A → Cache I E C D A × Option L)
    (advance_two : L
      → Cache I E C D A
      → Cache I E C D A
      → Cache I E C D A × Cache I E C D A × Option L)
    (whole : (request : StoreCommand K V) (s s' s'' : ℕ → Cache I E C D A) (reply : Reply K V)
      → TakesLocks request
      → Runs (begin_at begin) (advance advance_one advance_two) (begin_at begin request) s s'
      → store_step dec t request s ≡ ok (s'', reply)
      → s' ≡ s'') where
  abbrev IsLockedTameIn : ℕ → StoreCommand K V → Type 0
  IsLockedTameIn most request = IsTameIn t weight CanRemove most request × TakesLocks request

  abbrev pub requests_of : ℕ → List (ℕ × StoreCommand K V) → List (StoreCommand K V)
  requests_of = of_thread (begin_at begin) (advance advance_one advance_two)

  serial_store_run :
      (most : ℕ) (c : ℕ → Cache I E C D A) {c' : ℕ → Cache I E C D A}
      {done : List (ℕ × StoreCommand K V)}
      → most < size_mod
      → AllReady laws most c
      → Serially (begin_at begin) (advance advance_one advance_two) c done c'
      → All (IsLockedTameIn most) (commands_of done)
      → (replies : List (Reply K V)) × (store_run dec t (commands_of done) c ≡ ok (c', replies))
        × AllReady laws most c'
  unfolding store_run run_all
  serial_store_run most c fits ready nothing tame = ([], refl, ready)
  serial_store_run most c fits ready (then_one {done} {x'} {x''} i request before runs) tame =
      let split = commands_of-snoc done i request in
      let tame' = subst (All (IsLockedTameIn most)) split tame in
      let (replies, ran, ready') =
        serial_store_run most c fits ready before
          (All-left (IsLockedTameIn most) (commands_of done) (request ∷ []) tame') in
      let good = All-last (IsLockedTameIn most) (commands_of done) request tame' in
      let a = request-IsAnsweredIn laws CanRemove removal most x' request fits ready' good.0 in
      let same : x'' ≡ a.after = whole request x' x'' a.after a.reply good.1 runs a.ran in
      (
        replies ++ a.reply ∷ [],
        ap (λ requests. store_run dec t requests c) split
            ∙ run_all-snoc (store_step dec t) (commands_of done) request c x' a.after replies
                a.reply ran a.ran
            ∙ ap (λ y. ok (y, replies ++ a.reply ∷ [])) (sym same),
        subst (AllReady laws most) (sym same) a.ready,
      )

  -- Threads run programs of public operations that take the lock, and of swaps, on several valid
  -- caches, interleaved in any way, step by step: an operation holds the mutex of its cache and a
  -- swap those of both, which `lock_pair` takes in any order and one of which it may give back
  -- before it has the other. The steps of an operation or a swap, run alone, come to the same
  -- caches as it does at once; `remove` and `retain` are there only if the eviction policy can
  -- evict any key that it holds; items are such that their sizes do not wrap, and limits at most
  -- `most`, below the modulus of `size_t`. Then, whenever no thread is inside of an operation or a
  -- swap, the caches are what some history, one operation or swap after the other, makes of them:
  -- each thread's part of the history is a first part of its program and the rest is what it still
  -- has to do, the caches are valid, and the history has replies that the specification of several
  -- maps that may forget allows.
  pub locks-AreAllowed :
      (most n : ℕ) (c : ℕ → Cache I E C D A) (programs : ℕ → List (StoreCommand K V))
      {s : System (Cache I E C D A) L (Command K V)}
      → most < size_mod
      → AllReady laws most c
      → ((i : ℕ) → All (IsTameIn t weight CanRemove most) (programs i))
      → ((i : ℕ) → All TakesLocks (programs i))
      → Reach advance_one advance_two begin n c programs s
      → ((i : ℕ) (request : StoreCommand K V) (todo : List (StoreCommand K V))
          → s.locks.pcs i ≡ inside request todo
          → ⊥)
      → (done : List (ℕ × StoreCommand K V)) × (replies : List (Reply K V)) × (store_run dec t
            (commands_of done)
            c
          ≡ ok (s.store, replies))
        × AllReady laws most s.store
        × AreAllowedIn dec (all_contents t c) (all_contents t s.store) (commands_of done) replies
        × ((i : ℕ) → requests_of i done ++ todo_of (s.locks.pcs i) ≡ programs i)
  locks-AreAllowed most n c programs {s} fits ready tame locked reach quiet =
      let v = Reach-IsLinear begin advance_one advance_two c programs n reach in
      let good =
        commands_of-All (begin_at begin) (advance advance_one advance_two) (IsLockedTameIn most)
          v.done
          (λ i. All-left (IsLockedTameIn most) (requests_of i v.done) (todo_of (s.locks.pcs i)) (
            subst (All (IsLockedTameIn most)) (sym (v.order i)) (
              All-both (IsTameIn t weight CanRemove most) TakesLocks (programs i) (tame i)
                (locked i)))) in
      let tame' =
        All-map (IsLockedTameIn most) (IsTameIn t weight CanRemove most) (λ r h. h.0)
          (commands_of v.done) good in
      let now : s.store ≡ v.linear =
        fun_ext (λ y. v.unused y (λ i r todo at. absurd (quiet i r todo at))) in
      let (replies, ran, ready') = serial_store_run most c fits ready v.serial good in
      let (c', replies', ran', ready'', allowed) =
        store_run-AreAllowed laws CanRemove removal most (commands_of v.done) c fits ready tame' in
      let a : (ℕ → Cache I E C D A) × List (Reply K V) = (c', replies') in
      let b : (ℕ → Cache I E C D A) × List (Reply K V) = (s.store, replies) in
      let ran_now = ran ∙ ap (λ y. ok (y, replies)) (sym now) in
      let same : a ≡ b = ok_inj a b (sym ran' ∙ ran_now) in
      (
        v.done,
        replies,
        ran_now,
        subst (AllReady laws most) (sym now) ready',
        subst
            (λ p. AreAllowedIn dec (all_contents t c) (all_contents t p.0) (commands_of v.done) p.1)
            same allowed,
        v.order,
      )
