-- ===== src/Cache/Locks/Ownership.antt =====
-- Who owns which mutex, and that no two threads are inside of operations on one cache.
use cachemere.Common.{
  ℕ, zero, suc, ◌+◌, ◌<◌, ◌≡◌, refl, ◌∙◌, ap, subst, inl, inr, true, false, none, some, List, ◌∷◌,
  arith, ◌==◌, if◌then◌else◌, Bool-cases,
}
use cachemere.Cache.Locks.{
  RecursiveMutex, try_lock, unlock, Request, on, swaps, Pc, waiting, pairing, inside, Locks, assign,
  unlock_at, release, Move, locks, defers, takes_first, takes_second, gives_first, gives_second,
  enters, leaves, moves, Reach, start, next,
}

abbrev pub same : ℕ → ℕ → ℕ
same x y = if x == y then 1 else 0

-- How often thread `i` has locked the mutex.
abbrev pub owned : RecursiveMutex → ℕ → ℕ
owned none i = 0
owned (some (j, n)) i = if j == i then suc n else 0

try_lock-owned :
    (i j : ℕ) (m m' : RecursiveMutex) → try_lock i m ≡ some m' → owned m' j ≡ owned m j + same i j
unfolding try_lock
try_lock-owned i j none m' h = ground arith
try_lock-owned i j (some (k, n)) m' h = ground arith

unlock-owned :
    (i j : ℕ) (m : RecursiveMutex) → 0 < owned m i → owned (unlock m) j + same i j ≡ owned m j
unfolding unlock
unlock-owned i j none h = absurd (omega arith)
unlock-owned i j (some (k, zero)) h = ground arith
unlock-owned i j (some (k, suc n)) h = ground arith

-- After a lock and an unlock, at each mutex.
abbrev both : ℕ → ℕ → ℕ → ℕ → ℕ
both x y i j = if x == y then same i j else 0

locked_at :
    (i x y j : ℕ) (ms : ℕ → RecursiveMutex) (m : RecursiveMutex)
    → try_lock i (ms x) ≡ some m
    → owned (assign ms x m y) j ≡ owned (ms y) j + both x y i j
locked_at i x y j ms m h = elim (Bool-cases (x == y)) [
  | inl here ↦
      let e : x ≡ y = ground arith in
      rw here (try_lock-owned i j (ms x) m h ∙ ap (λ z. owned (ms z) j + same i j) e)
  | inr there ↦ ground (arith, there)
]

unlocked_at :
    (i x y j : ℕ) (ms : ℕ → RecursiveMutex)
    → 0 < owned (ms x) i
    → owned (unlock_at x ms y) j + both x y i j ≡ owned (ms y) j
unlocked_at i x y j ms h = elim (Bool-cases (x == y)) [
  | inl here ↦
      let e : x ≡ y = ground arith in
      rw here (unlock-owned i j (ms x) h ∙ ap (λ z. owned (ms z) j) e)
  | inr there ↦ ground (arith, there)
]

module _ {Op : Type 0} where
  -- How often the guards of a thread own the mutex of cache `x`.
  abbrev pub claims : Pc Op → ℕ → ℕ
  claims (waiting todo) x = 0
  claims (pairing y z first second todo) x =
      (if first then same y x else 0) + (if second then same z x else 0)
  claims (inside (on y op) todo) x = same y x
  claims (inside (swaps y z) todo) x = same y x + same z x

  -- What a thread has locked is what its guards say.
  abbrev pub Accounts : ℕ → (ℕ → RecursiveMutex) → Pc Op → Type 0
  Accounts i ms pc = (x : ℕ) → owned (ms x) i ≡ claims pc x

  -- A move changes what its thread has locked as it changes the guards, and nothing of the others.
  abbrev Balances : ℕ → (ℕ → RecursiveMutex) → (ℕ → RecursiveMutex) → Pc Op → Pc Op → Type 0
  Balances i ms ms' pc pc' =
      (y j : ℕ)
      → owned (ms' y) j + (if i == j then claims pc y else 0)
        ≡ owned (ms y) j + (if i == j then claims pc' y else 0)

  lock-Balances :
      (i x : ℕ) (ms : ℕ → RecursiveMutex) (m : RecursiveMutex) (pc pc' : Pc Op)
      → try_lock i (ms x) ≡ some m
      → ((y : ℕ) → claims pc' y ≡ claims pc y + same x y)
      → Balances i ms (assign ms x m) pc pc'
  lock-Balances i x ms m pc pc' h more y j = ground (arith, locked_at i x y j ms m h, more y)

  unlock-Balances :
      (i x : ℕ) (ms : ℕ → RecursiveMutex) (pc pc' : Pc Op)
      → Accounts i ms pc
      → ((y : ℕ) → claims pc y ≡ claims pc' y + same x y)
      → Balances i ms (unlock_at x ms) pc pc'
  unlock-Balances i x ms pc pc' mine less y j =
      ground (arith, unlocked_at i x y j ms (omega (arith, mine x, less x, same_self x)), less y)
    where
      same_self : (z : ℕ) → same z z ≡ 1
      same_self z = ground arith

  release-Balances :
      (i : ℕ) (ms : ℕ → RecursiveMutex) (request : Request Op) (todo : List (Request Op))
      → Accounts i ms (inside request todo)
      → Balances i ms (release request ms) (inside request todo) (waiting todo)
  release-Balances i ms (on x op) todo mine =
      unlock-Balances i x ms (inside (on x op) todo) (waiting todo) mine (λ y. omega arith)
  release-Balances i ms (swaps x z) todo mine =
      let first =
        unlock-Balances i z ms (inside (swaps x z) todo) (pairing x z true false todo) mine
          (λ w. omega arith) in
      let mine' : Accounts i (unlock_at z ms) (pairing x z true false todo) =
        λ w. ground (arith, first w i, mine w) in
      let second =
        unlock-Balances i x (unlock_at z ms) (pairing x z true false todo) (waiting todo) mine'
          (λ w. omega arith) in
      λ y j. ground (arith, first y j, second y j)

  Move-Balances :
      (i : ℕ) (ms ms' : ℕ → RecursiveMutex) (pc pc' : Pc Op)
      → Move i ms ms' pc pc'
      → Accounts i ms pc
      → Balances i ms ms' pc pc'
  Move-Balances i ms ms' pc pc' (locks x op todo m at got e to) mine =
      rw (at, e, to)
        (lock-Balances i x ms m (waiting (on x op ∷ todo)) (inside (on x op) todo) got
          (λ y. omega arith))
  Move-Balances i ms ms' pc pc' (defers x y todo at e to) mine = rw (at, e, to) (λ z j. refl)
  Move-Balances i ms ms' pc pc' (takes_first x y second todo m at got e to) mine =
      rw (at, e, to)
        (lock-Balances i x ms m (pairing x y false second todo) (pairing x y true second todo) got
          (λ z. omega arith))
  Move-Balances i ms ms' pc pc' (takes_second x y first todo m at got e to) mine =
      rw (at, e, to)
        (lock-Balances i y ms m (pairing x y first false todo) (pairing x y first true todo) got
          (λ z. omega arith))
  Move-Balances i ms ms' pc pc' (gives_first x y todo at e to) mine =
      rw (at, e, to)
        (unlock-Balances i x ms (pairing x y true false todo) (pairing x y false false todo)
          (subst (Accounts i ms) at mine) (λ z. omega arith))
  Move-Balances i ms ms' pc pc' (gives_second x y todo at e to) mine =
      rw (at, e, to)
        (unlock-Balances i y ms (pairing x y false true todo) (pairing x y false false todo)
          (subst (Accounts i ms) at mine) (λ z. omega arith))
  Move-Balances i ms ms' pc pc' (enters x y todo at e to) mine = rw (at, e, to) (λ z j. refl)
  Move-Balances i ms ms' pc pc' (leaves request todo at e to) mine =
      rw (at, e, to) (release-Balances i ms request todo (subst (Accounts i ms) at mine))

  -- Every thread has locked what its guards say.
  abbrev pub IsOwned : Locks Op → Type 0
  IsOwned s = (i : ℕ) → Accounts i s.mutexes (s.pcs i)

  pub Move-IsOwned :
      (i : ℕ) (s s' : Locks Op) (pc : Pc Op)
      → IsOwned s
      → Move i s.mutexes s'.mutexes (s.pcs i) pc
      → s'.pcs ≡ assign s.pcs i pc
      → IsOwned s'
  Move-IsOwned i s s' pc all move e j x = elim (Bool-cases (i == j)) [
    | inl me ↦
        let it : i ≡ j = ground arith in
        let moved : s'.pcs j ≡ pc = ap (λ f. f j) e ∙ rw me refl in
        ground (
          arith,
          Move-Balances i s.mutexes s'.mutexes (s.pcs i) pc move (all i) x j,
          all i x,
          me,
          ap (λ p. claims p x) moved,
          ap (λ k. owned (s.mutexes x) k) it,
        )
    | inr other ↦
        let kept : s'.pcs j ≡ s.pcs j = ap (λ f. f j) e ∙ rw other refl in
        ground (
          arith,
          Move-Balances i s.mutexes s'.mutexes (s.pcs i) pc move (all i) x j,
          all j x,
          other,
          ap (λ p. claims p x) kept,
        )
  ]

  pub Reach-IsOwned :
      (n : ℕ) (programs : ℕ → List (Request Op)) {s : Locks Op} → Reach n programs s → IsOwned s
  Reach-IsOwned n programs start = λ i x. refl
  Reach-IsOwned n programs (next {s} {s'} reach (moves i pc below move e)) =
      Move-IsOwned i s s' pc (Reach-IsOwned n programs reach) move e
