-- ===== src/Cache/Locks/Linear/Inside.antt =====
-- Steps inside of an operation, and what follows for all that threads do.
use cachemere.Common.{
  ℕ, ◌≡◌, refl, sym, ◌∙◌, ap, subst, ite, inl, inr, true, false, Option, none, some, List, [], ◌∷◌,
  ◌++◌, arith, ◌==◌, Bool-cases, ℕ_discrete,
}
use mathlib.Core.List.{append_assoc}
use cachemere.Cache.Threads.Serial.{last, more, nothing, then_one, of_thread, of_thread-snoc}
use cachemere.Cache.Locks.{Request, waiting, inside, Locks, assign, release, leaves}
use cachemere.Cache.Locks.Ownership.{Move-IsOwned}
use cachemere.Cache.Locks.Exclusion.{uses, IsOwned-exclusion}
use cachemere.Cache.Locks.Sections.{
  System, overlay, begin_at, advance, advance_off, advance_local, Step, outside, works, ends, Reach,
  start, next,
}
use cachemere.Cache.Locks.Linear.{todo_of, inside_inj, RunsOn, IsLinear, outside-IsLinear, unseen}

some_inj : {A : Type 0} (a b : A) → some a ≡ some b → a ≡ b
some_inj a b e = cc

module _ {S L Op : Type 0} (begin : Request Op → L) (advance_one : L → S → S × Option L)
    (advance_two : L → S → S → S × S × Option L) (x : ℕ → S)
    (programs : ℕ → List (Request Op)) where
  abbrev act : Request Op × L → (ℕ → S) → (ℕ → S) × Option (Request Op × L)
  act = advance advance_one advance_two

  module _ (s : System S L Op) (v : IsLinear begin advance_one advance_two x programs s) (i : ℕ)
      (request : Request Op) (todo : List (Request Op)) (l : L) (store : ℕ → S)
      (at : s.locks.pcs i ≡ inside request todo) (place : s.places i ≡ some l) where
    -- The step from the store `u` outside of the caches of the request.
    local_step :
        (o : Option (Request Op × L)) (u : ℕ → S)
        → act (request, l) s.store ≡ (store, o)
        → act (request, l) (overlay request s.store u) ≡ (overlay request store u, o)
    local_step o u step =
        advance_local advance_one advance_two request l s.store u
        ∙ ap (λ p. (overlay request p.0 u, p.1)) step

    elsewhere :
        (o : Option (Request Op × L)) (y : ℕ)
        → act (request, l) s.store ≡ (store, o)
        → uses request y ≡ false
        → store y ≡ s.store y
    elsewhere o y step no_use =
        sym (ap (λ p. p.0 y) step) ∙ advance_off advance_one advance_two request l s.store y no_use

    unseen_step :
        (o : Option (Request Op × L)) (j : ℕ) (r : Request Op) (t : List (Request Op)) (u : ℕ → S)
        → act (request, l) s.store ≡ (store, o)
        → s.locks.pcs j ≡ inside r t
        → (i ≡ j → ⊥)
        → overlay r store u ≡ overlay r s.store u
    unseen_step o j r t u step there ne =
        sym (ap (λ p. overlay r p.0 u) step)
        ∙ unseen begin advance_one advance_two x programs s s v i j request r todo t l u at there ne

    works-IsLinear :
        (l' : L)
        → act (request, l) s.store ≡ (store, some (request, l'))
        → IsLinear begin advance_one advance_two x programs
            (record { locks = s.locks; store = store; places = assign s.places i (some l') })
    works-IsLinear l' step = record {
      all = v.all;
      done = v.done;
      linear = v.linear;
      serial = v.serial;
      order = v.order;
      unused = λ y free.
          elsewhere (some (request, l')) y step (free i request todo at) ∙ v.unused y free;
      completes = λ j r t k there place' u w agree runs. elim (Bool-cases (i == j)) [
        | inl me ↦
            let it : i ≡ j = ground arith in
            let same : r ≡ request =
              inside_inj r request t todo (sym there ∙ ap s.locks.pcs (sym it) ∙ at) in
            let goes_on : k ≡ l' = some_inj k l' (sym place' ∙ rw me refl) in
            let runs' =
              subst (λ q. RunsOn begin advance_one advance_two (q, l') (overlay q store u) w) same
                (subst (λ q. RunsOn begin advance_one advance_two (r, q) (overlay r store u) w)
                  goes_on runs) in
            subst (λ q. RunsOn begin advance_one advance_two (q, begin q) u w) (sym same)
              (v.completes i request todo l at place u w
                (λ y used. agree y (ap (λ q. uses q y) same ∙ used))
                (more (local_step (some (request, l')) u step) runs'))
        | inr other ↦ v.completes j r t k there (sym (rw other refl) ∙ place') u w agree (
            subst (λ st. RunsOn begin advance_one advance_two (r, k) st w)
              (unseen_step (some (request, l')) j r t u step there
                (λ e. absurd (ground (arith, other, e))))
              runs)
      ];
    }

    -- The locks after the end of the operation.
    abbrev unlocked : Locks Op
    unlocked = record {
      mutexes = release request s.locks.mutexes;
      pcs = assign s.locks.pcs i (waiting todo);
    }

    in_turn :
        (j : ℕ)
        → of_thread (begin_at begin) act j (v.done ++ (i, request) ∷ []) ++ todo_of (unlocked.pcs j)
          ≡ programs j
    in_turn j =
        ap (λ q. q ++ todo_of (unlocked.pcs j))
          (of_thread-snoc (begin_at begin) act j i request v.done)
        ∙ append_assoc (of_thread (begin_at begin) act j v.done)
            (ite (ℕ_discrete i j) (request ∷ []) []) (todo_of (unlocked.pcs j))
        ∙ ap (λ q. of_thread (begin_at begin) act j v.done ++ q) tail
        ∙ v.order j
      where
        tail :
            ite (ℕ_discrete i j) (request ∷ []) [] ++ todo_of (unlocked.pcs j)
            ≡ todo_of (s.locks.pcs j)
        tail = elim (Bool-cases (i == j)) [
          | inl me ↦
              let it : i ≡ j = ground arith in
              let old : todo_of (s.locks.pcs j) ≡ request ∷ todo =
                ap (λ k. todo_of (s.locks.pcs k)) (sym it) ∙ ap todo_of at in
              ground (arith, old, me, it)
          | inr other ↦ ground (arith, other)
        ]

    ends-IsLinear :
        act (request, l) s.store ≡ (store, none)
        → IsLinear begin advance_one advance_two x programs
            (record { locks = unlocked; store = store; places = assign s.places i none })
    ends-IsLinear step = record {
      all =
          Move-IsOwned i s.locks unlocked (waiting todo) v.all (leaves request todo at refl refl)
            refl;
      done = v.done ++ (i, request) ∷ [];
      linear = linear';
      serial = then_one i request v.serial (
          v.completes i request todo l at place v.linear linear' (λ y used. refl)
            (last (local_step none v.linear step)));
      order = in_turn;
      unused = λ y free. elim (Bool-cases (uses request y)) [
        | inl used ↦ rw used refl
        | inr no_use ↦ rw no_use (
            elsewhere none y step no_use
            ∙ v.unused y (λ j r t there. elim (Bool-cases (i == j)) [
              | inl me ↦
                  let it : i ≡ j = ground arith in
                  let same : r ≡ request =
                    inside_inj r request t todo (sym there ∙ ap s.locks.pcs (sym it) ∙ at) in
                  ap (λ q. uses q y) same ∙ no_use
              | inr other ↦ free j r t (rw other there)
            ]))
      ];
      completes = λ j r t k there place' u w agree runs. elim (Bool-cases (i == j)) [
        | inl me ↦ absurd (waiting_inside todo r t (sym (rw me refl) ∙ there))
        | inr other ↦
            let ne : i ≡ j → ⊥ = λ e. absurd (ground (arith, other, e)) in
            let there' : s.locks.pcs j ≡ inside r t = sym (rw other refl) ∙ there in
            v.completes j r t k there' (sym (rw other refl) ∙ place') u w
              (λ y used. agree y used ∙ apart j r t y there' ne used)
              (subst (λ st. RunsOn begin advance_one advance_two (r, k) st w)
                (unseen_step none j r t u step there' ne) runs)
      ];
    }
      where
        linear' : ℕ → S
        linear' = overlay request store v.linear

        waiting_inside :
            (rest : List (Request Op)) (r : Request Op) (t : List (Request Op))
            → waiting rest ≡ inside r t
            → ⊥
        waiting_inside rest r t e = absurd (ground (arith, e))

        apart :
            (j : ℕ) (r : Request Op) (t : List (Request Op)) (y : ℕ)
            → s.locks.pcs j ≡ inside r t
            → (i ≡ j → ⊥)
            → uses r y ≡ true
            → linear' y ≡ v.linear y
        apart j r t y there ne used = elim (Bool-cases (uses request y)) [
          | inr no_use ↦ rw no_use refl
          | inl both ↦
              absurd
                (ne (IsOwned-exclusion s.locks i j y request r todo t v.all at there both used))
        ]

  Step-IsLinear :
      (n : ℕ) (s s' : System S L Op)
      → IsLinear begin advance_one advance_two x programs s
      → Step advance_one advance_two begin n s s'
      → IsLinear begin advance_one advance_two x programs s'
  Step-IsLinear n s s' v (outside i pc below out move pcs store places) =
      outside-IsLinear begin advance_one advance_two x programs s s' v i pc out move pcs store
        places
  Step-IsLinear n s s' v (works i request todo l l' store below at place step e) =
      subst (IsLinear begin advance_one advance_two x programs) (sym e)
        (works-IsLinear s v i request todo l store at place l' step)
  Step-IsLinear n s s' v (ends i request todo l store below at place step e) =
      subst (IsLinear begin advance_one advance_two x programs) (sym e)
        (ends-IsLinear s v i request todo l store at place step)

  pub Reach-IsLinear :
      (n : ℕ) {s : System S L Op}
      → Reach advance_one advance_two begin n x programs s
      → IsLinear begin advance_one advance_two x programs s
  unfolding of_thread
  Reach-IsLinear n start = record {
    all = λ i y. refl;
    done = [];
    linear = x;
    serial = nothing;
    order = λ i. refl;
    unused = λ y free. refl;
    completes = λ i r t l at place. absurd (ground (arith, at));
  }
  Reach-IsLinear n (next {s} {s'} reach step) = Step-IsLinear n s s' (Reach-IsLinear n reach) step
