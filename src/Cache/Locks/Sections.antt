-- ===== src/Cache/Locks/Sections.antt =====
-- What threads do to the caches while they have the locks. The steps of an operation on one cache, and
-- those of `swap` on two, are parameters: `begin` is where a thread stands once it has its locks, and
-- the next step ends in the destruction of the guards (`none`) or where the thread stands then.
use mathlib.Core.Option
use cachemere.Common.{
  ℕ, ◌<◌, ◌≡◌, ◌∙◌, ap, fun_ext, false, Option, none, some, List, arith, if◌then◌else◌,
}
use cachemere.Cache.Locks.{
  Request, on, swaps, Pc, waiting, pairing, inside, Locks, assign, release, Move, launched,
}
use cachemere.Cache.Locks.Exclusion.{uses}

-- `places` is where the threads stand that are inside.
pub record System (S L Op : Type 0) : Type 0 where
  pub locks : Locks Op
  pub store : ℕ → S
  pub places : ℕ → Option L

abbrev pub IsOutside : {Op : Type 0} → Pc Op → Type 0
IsOutside (waiting todo) = Unit
IsOutside (pairing x y first second todo) = Unit
IsOutside (inside request todo) = ⊥

-- The store with the caches of the request from `u`.
abbrev pub overlay : {S Op : Type 0} → Request Op → (ℕ → S) → (ℕ → S) → ℕ → S
overlay request u v x = if uses request x then u x else v x

module _ {L Op : Type 0} (begin : Request Op → L) where
  abbrev pub begin_at : Request Op → Request Op × L
  begin_at request = (request, begin request)

  abbrev pub place_at : Pc Op → Option L
  place_at (waiting todo) = none
  place_at (pairing x y first second todo) = none
  place_at (inside request todo) = some (begin request)

abbrev pub started : {S L Op : Type 0} → (ℕ → S) → (ℕ → List (Request Op)) → System S L Op
started store programs = record { locks = launched programs; store = store; places = λ i. none }

module _ {S L : Type 0} (advance_one : L → S → S × Option L)
    (advance_two : L → S → S → S × S × Option L) where
  module _ {Op : Type 0} where
    -- A step on the store.
    unfoldable pub advance : Request Op × L → (ℕ → S) → (ℕ → S) × Option (Request Op × L)
    advance (on x op, l) s =
        let (a, l') = advance_one l (s x) in (assign s x a, Option.map (λ k. (on x op, k)) l')
    advance (swaps x y, l) s =
        let (a, b, l') = advance_two l (s x) (s y) in
        (assign (assign s x a) y b, Option.map (λ k. (swaps x y, k)) l')

    -- It reads and changes no other cache than those of its request.
    pub advance_off :
        (request : Request Op) (l : L) (u : ℕ → S) (x : ℕ)
        → uses request x ≡ false
        → (advance (request, l) u).0 x ≡ u x
    unfolding advance
    advance_off (on y op) l u x h = ground (arith, h)
    advance_off (swaps y z) l u x h = ground (arith, h)

    pub advance_local :
        (request : Request Op) (l : L) (u v : ℕ → S)
        → advance (request, l) (overlay request u v)
          ≡ (overlay request (advance (request, l) u).0 v, (advance (request, l) u).1)
    unfolding advance
    advance_local (on y op) l u v =
        let r = on y op in
        let read : overlay r u v y ≡ u y = ground arith in
        ap
          (λ c. (
            assign (overlay r u v) y (advance_one l c).0,
            Option.map (λ k. (r, k)) (advance_one l c).1,
          ))
          read
        ∙ ap (λ st. (st, Option.map (λ k. (r, k)) (advance_one l (u y)).1))
            (fun_ext (λ z. ground arith))
    advance_local (swaps y z) l u v =
        let r : Request Op = swaps y z in
        let first : overlay r u v y ≡ u y = ground arith in
        let second : overlay r u v z ≡ u z = ground arith in
        ap
          (λ c. (
            assign (assign (overlay r u v) y (advance_two l c (overlay r u v z)).0) z
                (advance_two l c (overlay r u v z)).1,
            Option.map (λ k. (r, k)) (advance_two l c (overlay r u v z)).2,
          ))
          first
        ∙ ap
            (λ c. (
              assign (assign (overlay r u v) y (advance_two l (u y) c).0) z
                  (advance_two l (u y) c).1,
              Option.map (λ k. (r, k)) (advance_two l (u y) c).2,
            ))
            second
        ∙ ap (λ st. (st, Option.map (λ k. (r, k)) (advance_two l (u y) (u z)).2))
            (fun_ext (λ w. ground arith))

  module _ {Op : Type 0} (begin : Request Op → L) where
    -- A step of one of `n` threads.
    pub data Step (n : ℕ) (s s' : System S L Op) : Type 0 where
      outside :
          (i : ℕ) (pc : Pc Op)
          → i < n
          → IsOutside (s.locks.pcs i)
          → Move i s.locks.mutexes s'.locks.mutexes (s.locks.pcs i) pc
          → s'.locks.pcs ≡ assign s.locks.pcs i pc
          → s'.store ≡ s.store
          → s'.places ≡ assign s.places i (place_at begin pc)
          → Step n s s'
      works :
          (i : ℕ) (request : Request Op) (todo : List (Request Op)) (l l' : L) (store : ℕ → S)
          → i < n
          → s.locks.pcs i ≡ inside request todo
          → s.places i ≡ some l
          → advance (request, l) s.store ≡ (store, some (request, l'))
          → s' ≡ record { locks = s.locks; store = store; places = assign s.places i (some l') }
          → Step n s s'
      ends :
          (i : ℕ) (request : Request Op) (todo : List (Request Op)) (l : L) (store : ℕ → S)
          → i < n
          → s.locks.pcs i ≡ inside request todo
          → s.places i ≡ some l
          → advance (request, l) s.store ≡ (store, none)
          → s' ≡ record {
            locks = record {
              mutexes = release request s.locks.mutexes;
              pcs = assign s.locks.pcs i (waiting todo);
            };
            store = store;
            places = assign s.places i none;
          }
          → Step n s s'

    pub data Reach (n : ℕ) (store : ℕ → S) (programs : ℕ → List (Request Op))
        : System S L Op → Type 0 where
      start : Reach n store programs (started store programs)
      next :
          {s s' : System S L Op}
          → Reach n store programs s
          → Step n s s'
          → Reach n store programs s'
