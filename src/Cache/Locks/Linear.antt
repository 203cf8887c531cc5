-- ===== src/Cache/Locks/Linear.antt =====
-- What threads have done to several caches, as one operation or swap after the other.
pub mod Inside
use cachemere.Common.{
  ℕ, ◌<◌, ◌≡◌, refl, sym, ◌∙◌, ap, subst, fun_ext, ite, inl, inr, Bool, true, false, Option, none,
  some, List, [], ◌∷◌, ◌++◌, arith, ◌==◌, if◌then◌else◌, Bool-cases, ℕ_discrete,
}
use mathlib.Core.List.{append_assoc}
use cachemere.Cache.Threads.Serial.{
  Runs, last, more, Serially, nothing, then_one, of_thread, of_thread-snoc,
}
use cachemere.Cache.Locks.{
  RecursiveMutex, Request, on, swaps, Pc, waiting, pairing, inside, Locks, assign, release, Move,
  locks, defers, takes_first, takes_second, gives_first, gives_second, enters, leaves,
}
use cachemere.Cache.Locks.Ownership.{IsOwned, Move-IsOwned}
use cachemere.Cache.Locks.Exclusion.{uses, IsOwned-exclusion}
use cachemere.Cache.Locks.Sections.{
  System, IsOutside, overlay, begin_at, place_at, advance, advance_off, advance_local, Step,
  outside, works, ends, Reach, start, next,
}

module _ {A : Type 0} (f g : ℕ → A) (i : ℕ) (a : A) (j : ℕ) (e : g ≡ assign f i a) where
  pub assigned_here : (i == j) ≡ true → g j ≡ a
  assigned_here me = ap (λ h. h j) e ∙ rw me refl

  pub assigned_elsewhere : (i == j) ≡ false → g j ≡ f j
  assigned_elsewhere other = ap (λ h. h j) e ∙ rw other refl

module _ {Op : Type 0} where
  -- What a thread has still to complete.
  abbrev pub todo_of : Pc Op → List (Request Op)
  todo_of (waiting todo) = todo
  todo_of (pairing x y first second todo) = swaps x y ∷ todo
  todo_of (inside request todo) = request ∷ todo

  Move-todo_of :
      (i : ℕ) (ms ms' : ℕ → RecursiveMutex) (pc pc' : Pc Op)
      → IsOutside pc
      → Move i ms ms' pc pc'
      → todo_of pc' ≡ todo_of pc
  Move-todo_of i ms ms' pc pc' out (locks x op todo m at got e to) = rw (at, to) refl
  Move-todo_of i ms ms' pc pc' out (defers x y todo at e to) = rw (at, to) refl
  Move-todo_of i ms ms' pc pc' out (takes_first x y second todo m at got e to) = rw (at, to) refl
  Move-todo_of i ms ms' pc pc' out (takes_second x y first todo m at got e to) = rw (at, to) refl
  Move-todo_of i ms ms' pc pc' out (gives_first x y todo at e to) = rw (at, to) refl
  Move-todo_of i ms ms' pc pc' out (gives_second x y todo at e to) = rw (at, to) refl
  Move-todo_of i ms ms' pc pc' out (enters x y todo at e to) = rw (at, to) refl
  Move-todo_of i ms ms' pc pc' out (leaves request todo at e to) = absurd (subst IsOutside at out)

  inside-outside :
      (pc : Pc Op) (request : Request Op) (todo : List (Request Op))
      → IsOutside pc
      → pc ≡ inside request todo
      → ⊥
  inside-outside pc request todo out at = subst IsOutside at out

  pub inside_inj :
      (request request' : Request Op) (todo todo' : List (Request Op))
      → inside request todo ≡ inside request' todo'
      → request ≡ request'
  inside_inj request request' todo todo' e = cc

  -- The cache is used by no thread that is inside.
  abbrev pub IsUnused : Locks Op → ℕ → Type 0
  IsUnused s x =
      (i : ℕ) (request : Request Op) (todo : List (Request Op))
      → s.pcs i ≡ inside request todo
      → uses request x ≡ false

module _ {S L Op : Type 0} (begin : Request Op → L) (advance_one : L → S → S × Option L)
    (advance_two : L → S → S → S × S × Option L) where
  abbrev pub RunsOn : Request Op × L → (ℕ → S) → (ℕ → S) → Type 0
  RunsOn = Runs (begin_at begin) (advance advance_one advance_two)

  -- `linear` is the store after the operations that are done, alone and in turn. A cache that no thread
  -- uses is as there; the others are on the way from there.
  pub record IsLinear (x : ℕ → S) (programs : ℕ → List (Request Op)) (s : System S L Op)
      : Type 0 where
    pub all : IsOwned s.locks
    pub done : List (ℕ × Request Op)
    pub linear : ℕ → S
    pub serial : Serially (begin_at begin) (advance advance_one advance_two) x done linear
    pub order :
        (i : ℕ)
        → of_thread (begin_at begin) (advance advance_one advance_two) i done
            ++ todo_of (s.locks.pcs i)
          ≡ programs i
    pub unused : (y : ℕ) → IsUnused s.locks y → s.store y ≡ linear y
    pub completes :
        (i : ℕ) (request : Request Op) (todo : List (Request Op)) (l : L)
        → s.locks.pcs i ≡ inside request todo
        → s.places i ≡ some l
        → (v w : ℕ → S) → ((y : ℕ) → uses request y ≡ true → v y ≡ linear y)
        → RunsOn (request, l) (overlay request s.store v) w
        → RunsOn (request, begin request) v w

  module _ (x : ℕ → S) (programs : ℕ → List (Request Op)) (s s' : System S L Op)
      (v : IsLinear x programs s) (i : ℕ) where
    pub outside-IsLinear :
        (pc : Pc Op)
        → IsOutside (s.locks.pcs i)
        → Move i s.locks.mutexes s'.locks.mutexes (s.locks.pcs i) pc
        → s'.locks.pcs ≡ assign s.locks.pcs i pc
        → s'.store ≡ s.store
        → s'.places ≡ assign s.places i (place_at begin pc)
        → IsLinear x programs s'
    outside-IsLinear pc out move pcs store places = record {
      all = owned';
      done = v.done;
      linear = v.linear;
      serial = v.serial;
      order = λ j.
          ap (λ l. of_thread (begin_at begin) (advance advance_one advance_two) j v.done ++ l)
            (todo_same j)
          ∙ v.order j;
      unused =
          λ y free. ap (λ st. st y) store ∙ v.unused y (λ j r t at. free j r t (still j r t at));
      completes = complete;
    }
      where
        owned' : IsOwned s'.locks
        owned' = Move-IsOwned i s.locks s'.locks pc v.all move pcs

        pc_mine : (j : ℕ) → (i == j) ≡ true → s'.locks.pcs j ≡ pc
        pc_mine j = assigned_here s.locks.pcs s'.locks.pcs i pc j pcs

        pc_other : (j : ℕ) → (i == j) ≡ false → s'.locks.pcs j ≡ s.locks.pcs j
        pc_other j = assigned_elsewhere s.locks.pcs s'.locks.pcs i pc j pcs

        todo_same : (j : ℕ) → todo_of (s'.locks.pcs j) ≡ todo_of (s.locks.pcs j)
        todo_same j = elim (Bool-cases (i == j)) [
          | inl me ↦
              let it : i ≡ j = ground arith in
              ap todo_of (pc_mine j me)
              ∙ Move-todo_of i s.locks.mutexes s'.locks.mutexes (s.locks.pcs i) pc out move
              ∙ ap (λ k. todo_of (s.locks.pcs k)) it
          | inr other ↦ ap todo_of (pc_other j other)
        ]

        still :
            (j : ℕ) (r : Request Op) (t : List (Request Op))
            → s.locks.pcs j ≡ inside r t
            → s'.locks.pcs j ≡ inside r t
        still j r t at = elim (Bool-cases (i == j)) [
          | inl me ↦
              let it : i ≡ j = ground arith in
              absurd (inside-outside (s.locks.pcs i) r t out (ap s.locks.pcs it ∙ at))
          | inr other ↦ pc_other j other ∙ at
        ]

        complete :
            (j : ℕ) (r : Request Op) (t : List (Request Op)) (l : L)
            → s'.locks.pcs j ≡ inside r t
            → s'.places j ≡ some l
            → (u w : ℕ → S) → ((y : ℕ) → uses r y ≡ true → u y ≡ v.linear y)
            → RunsOn (r, l) (overlay r s'.store u) w
            → RunsOn (r, begin r) u w
        complete j r t l at place u w agree runs = elim (Bool-cases (i == j)) [
          | inr other ↦
              v.completes j r t l (sym (pc_other j other) ∙ at)
                (sym (assigned_elsewhere s.places s'.places i (place_at begin pc) j places other)
                  ∙ place)
                u w agree (subst (λ st. RunsOn (r, l) (overlay r st u) w) store runs)
          | inl me ↦
              let it : i ≡ j = ground arith in
              let here : pc ≡ inside r t = sym (pc_mine j me) ∙ at in
              let begun : some (begin r) ≡ some l =
                sym (ap (place_at begin) here)
                ∙ sym (assigned_here s.places s'.places i (place_at begin pc) j places me)
                ∙ place in
              let there : begin r ≡ l = cc in
              let same : overlay r s'.store u ≡ u = fun_ext (λ y. elim (Bool-cases (uses r y)) [
                | inr no_use ↦ rw no_use refl
                | inl used ↦ rw used (
                    ap (λ st. st y) store
                    ∙ v.unused y (λ k r' t' at'. elim (Bool-cases (uses r' y)) [
                      | inr no_use ↦ no_use
                      | inl used' ↦
                          let one_thread : j ≡ k =
                            IsOwned-exclusion s'.locks j k y r r' t t' owned' at (still k r' t' at')
                              used used' in
                          absurd (
                            inside-outside (s.locks.pcs i) r' t' out
                              (ap s.locks.pcs (it ∙ one_thread) ∙ at'))
                    ])
                    ∙ sym (agree y used))
              ]) in
              subst (λ st. RunsOn (r, begin r) st w) same
                (subst (λ k. RunsOn (r, k) (overlay r s'.store u) w) (sym there) runs)
        ]

    -- Another thread that is inside does not see what thread `i` does to its caches.
    pub unseen :
        (j : ℕ) (r r' : Request Op) (t t' : List (Request Op)) (l : L) (u : ℕ → S)
        → s.locks.pcs i ≡ inside r t
        → s.locks.pcs j ≡ inside r' t'
        → (i ≡ j → ⊥)
        → overlay r' (advance advance_one advance_two (r, l) s.store).0 u ≡ overlay r' s.store u
    unseen j r r' t t' l u at at' ne = fun_ext (λ y. elim (Bool-cases (uses r' y)) [
      | inr no_use ↦ rw no_use refl
      | inl used' ↦ rw used' (elim (Bool-cases (uses r y)) [
        | inr no_use ↦ advance_off advance_one advance_two r l s.store y no_use
        | inl used ↦ absurd (ne (IsOwned-exclusion s.locks i j y r r' t t' v.all at at' used used'))
      ])
    ])
