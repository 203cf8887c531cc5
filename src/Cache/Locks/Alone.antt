-- ===== src/Cache/Locks/Alone.antt =====
-- What one thread can do while the others wait.
use cachemere.Common.{
  ℕ, suc, ◌<◌, ◌≡◌, refl, sym, ◌∙◌, ap, subst, inl, inr, true, false, none, some, List, [], ◌∷◌,
  arith, ◌==◌, Bool-cases,
}
use cachemere.Cache.Locks.{
  RecursiveMutex, try_lock, Request, on, swaps, Pc, waiting, pairing, inside, Locks, assign,
  unlock_at, release, Move, locks, defers, takes_first, takes_second, gives_first, gives_second,
  enters, leaves, Step, moves,
}
use cachemere.Cache.Locks.Ownership.{owned, claims, IsOwned, Move-IsOwned}

-- A mutex that no other thread owns can be locked.
try_lock_lem :
    (i : ℕ) (m : RecursiveMutex)
    → ((j : ℕ) → (i ≡ j → ⊥) → owned m j ≡ 0)
    → (m' : RecursiveMutex) × (try_lock i m ≡ some m')
unfolding try_lock
try_lock_lem i none free = (some (i, 0), refl)
try_lock_lem i (some (k, n)) free = elim (Bool-cases (k == i)) [
  | inl mine ↦ (some (k, suc n), rw mine refl)
  | inr other ↦ absurd (ground (arith, free k, other))
]

module _ {Op : Type 0} where
  -- Some steps, one after the other.
  pub data Steps (n : ℕ) (s : Locks Op) : Locks Op → Type 0 where
    here : Steps n s s
    then_step : {s' s'' : Locks Op} → Steps n s s' → Step n s' s'' → Steps n s s''

  pub Steps-trans : {n : ℕ} {s s' s'' : Locks Op} → Steps n s s' → Steps n s' s'' → Steps n s s''
  Steps-trans p here = p
  Steps-trans p (then_step q step) = then_step (Steps-trans p q) step

  -- A thread whose guards own nothing.
  abbrev pub IsCalm : Pc Op → Type 0
  IsCalm (waiting todo) = Unit
  IsCalm (pairing x y false false todo) = Unit
  IsCalm (pairing x y false true todo) = ⊥
  IsCalm (pairing x y true second todo) = ⊥
  IsCalm (inside request todo) = ⊥

  pub IsCalm-claims : (pc : Pc Op) (x : ℕ) → IsCalm pc → claims pc x ≡ 0
  IsCalm-claims (waiting todo) x c = refl
  IsCalm-claims (pairing y z false false todo) x c = refl
  IsCalm-claims (pairing y z false true todo) x c = absurd c
  IsCalm-claims (pairing y z true second todo) x c = absurd c
  IsCalm-claims (inside request todo) x c = absurd c

  -- What a thread can come to by its own moves, as from `s`, where it stands at `pc` then.
  pub record Gets (n i : ℕ) (s : Locks Op) (pc : Pc Op) : Type 0 where
    pub after : Locks Op
    pub path : Steps n s after
    pub owned_after : IsOwned after
    pub mine : after.pcs i ≡ pc
    pub others : (j : ℕ) → (i ≡ j → ⊥) → after.pcs j ≡ s.pcs j

  module _ (n i : ℕ) (below : i < n) where
    pub stay : (s : Locks Op) (pc : Pc Op) → IsOwned s → s.pcs i ≡ pc → Gets n i s pc
    stay s pc all at = record {
      after = s;
      path = here;
      owned_after = all;
      mine = at;
      others = λ j ne. refl;
    }

    go :
        {s : Locks Op} {pc : Pc Op} (pc' : Pc Op) (ms : ℕ → RecursiveMutex) (g : Gets n i s pc)
        → Move i g.after.mutexes ms pc pc'
        → Gets n i s pc'
    go pc' ms g move =
        let s' : Locks Op = record { mutexes = ms; pcs = assign g.after.pcs i pc' } in
        let move' = subst (λ q. Move i g.after.mutexes ms q pc') (sym g.mine) move in
        record {
          after = s';
          path = then_step g.path (moves i pc' below move' refl);
          owned_after = Move-IsOwned i g.after s' pc' g.owned_after move' refl;
          mine = ground arith;
          others = λ j ne. ground (arith, ne, g.others j ne);
        }

    -- The other threads own nothing.
    module _ (s : Locks Op) (calm : (j : ℕ) → (i ≡ j → ⊥) → IsCalm (s.pcs j)) where
      can_lock :
          {pc : Pc Op} (g : Gets n i s pc) (x : ℕ)
          → (m : RecursiveMutex) × (try_lock i (g.after.mutexes x) ≡ some m)
      can_lock g x = try_lock_lem i (g.after.mutexes x) (λ j ne.
          g.owned_after j x
          ∙ ap (λ p. claims p x) (g.others j ne)
          ∙ IsCalm-claims (s.pcs j) x (calm j ne))

      through_pair :
          (x y : ℕ) (todo : List (Request Op))
          → Gets n i s (pairing x y false false todo)
          → Gets n i s (waiting todo)
      through_pair x y todo g =
          let (m, got) = can_lock g x in
          let g' =
            go (pairing x y true false todo) (assign g.after.mutexes x m) g
              (takes_first x y false todo m refl got refl refl) in
          let (m', got') = can_lock g' y in
          let g'' =
            go (pairing x y true true todo) (assign g'.after.mutexes y m') g'
              (takes_second x y true todo m' refl got' refl refl) in
          let g3 =
            go (inside (swaps x y) todo) g''.after.mutexes g'' (enters x y todo refl refl refl) in
          go (waiting todo) (release {Op = Op} (swaps x y) g3.after.mutexes) g3
            (leaves (swaps x y) todo refl refl refl)

      through_all : (todo : List (Request Op)) → Gets n i s (waiting todo) → Gets n i s (waiting [])
      through_all [] g = g
      through_all (on x op ∷ todo) g =
          let (m, got) = can_lock g x in
          let g' =
            go (inside (on x op) todo) (assign g.after.mutexes x m) g
              (locks x op todo m refl got refl refl) in
          through_all todo (
            go (waiting todo) (release (on x op) g'.after.mutexes) g'
              (leaves (on x op) todo refl refl refl))
      through_all (swaps x y ∷ todo) g = through_all todo (
          through_pair x y todo
            (go (pairing x y false false todo) g.after.mutexes g (defers x y todo refl refl refl)))

      pub finish_one : (pc : Pc Op) → IsCalm pc → Gets n i s pc → Gets n i s (waiting [])
      finish_one (waiting todo) c g = through_all todo g
      finish_one (pairing x y false false todo) c g = through_all todo (through_pair x y todo g)
      finish_one (pairing x y false true todo) c g = absurd c
      finish_one (pairing x y true second todo) c g = absurd c
      finish_one (inside request todo) c g = absurd c

    -- Whatever the others own, a thread can come to own nothing.
    pub settle :
        (s : Locks Op) (pc : Pc Op) → Gets n i s pc → (pc' : Pc Op) × IsCalm pc' × Gets n i s pc'
    settle s (waiting todo) g = (waiting todo, tt, g)
    settle s (pairing x y false false todo) g = (pairing x y false false todo, tt, g)
    settle s (pairing x y false true todo) g = (
      pairing x y false false todo,
      tt,
      go (pairing x y false false todo) (unlock_at y g.after.mutexes) g
          (gives_second x y todo refl refl refl),
    )
    settle s (pairing x y true false todo) g = (
      pairing x y false false todo,
      tt,
      go (pairing x y false false todo) (unlock_at x g.after.mutexes) g
          (gives_first x y todo refl refl refl),
    )
    settle s (pairing x y true true todo) g =
        let g' = go (inside (swaps x y) todo) g.after.mutexes g (enters x y todo refl refl refl) in
        (
          waiting todo,
          tt,
          go (waiting todo) (release {Op = Op} (swaps x y) g'.after.mutexes) g'
              (leaves (swaps x y) todo refl refl refl),
        )
    settle s (inside request todo) g = (
      waiting todo,
      tt,
      go (waiting todo) (release request g.after.mutexes) g (leaves request todo refl refl refl),
    )
