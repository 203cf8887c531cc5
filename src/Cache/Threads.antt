-- ===== src/Cache/Threads.antt =====
-- include/cachemere/cache.hpp: `lock`. Threads share a cache; each operation holds the cache's mutex
-- from its first step to its last. The steps of an operation are a parameter: `begin` is where a
-- thread stands once it has the lock, and `advance` is its next step on the cache, which ends in the
-- destruction of the guard (`none`) or where the thread stands then.
pub mod Serial
pub mod Progress
pub mod Histories
use cachemere.Common.{ℕ, ◌<◌, ◌≡◌, ite, Option, none, some, List, [], ◌∷◌, ◌++◌, ℕ_discrete}

-- What a thread has to do: `working` is inside of an operation.
pub data Pc (L Op : Type 0) : Type 0 where
  waiting : List Op → Pc L Op
  working : L → List Op → Pc L Op

-- `mutex` is the thread that holds `m_mutex`, if one does.
pub record System (S L Op : Type 0) : Type 0 where
  pub shared : S
  pub mutex : Option ℕ
  pub pcs : ℕ → Pc L Op

-- `pcs` with `pc` for thread `i`.
abbrev pub update : {L Op : Type 0} → (ℕ → Pc L Op) → ℕ → Pc L Op → ℕ → Pc L Op
update pcs i pc j = ite (ℕ_discrete i j) pc (pcs j)

abbrev pub launched : {S L Op : Type 0} → S → (ℕ → List Op) → System S L Op
launched x programs = record { shared = x; mutex = none; pcs = λ i. waiting (programs i) }

module _ {S L Op : Type 0} (begin : Op → L) (advance : L → S → S × Option L) where
  -- A step of one of `n` threads.
  pub data Step (n : ℕ) (s s' : System S L Op) : Type 0 where
    locks :
        (i : ℕ) (op : Op) (todo : List Op)
        → i < n
        → s.pcs i ≡ waiting (op ∷ todo)
        → s.mutex ≡ none
        → s' ≡ record {
          shared = s.shared;
          mutex = some i;
          pcs = update s.pcs i (working (begin op) todo);
        }
        → Step n s s'
    works :
        (i : ℕ) (l l' : L) (todo : List Op) (x : S)
        → i < n
        → s.pcs i ≡ working l todo
        → advance l s.shared ≡ (x, some l')
        → s' ≡ record { shared = x; mutex = s.mutex; pcs = update s.pcs i (working l' todo) }
        → Step n s s'
    unlocks :
        (i : ℕ) (l : L) (todo : List Op) (x : S)
        → i < n
        → s.pcs i ≡ working l todo
        → advance l s.shared ≡ (x, none)
        → s' ≡ record { shared = x; mutex = none; pcs = update s.pcs i (waiting todo) }
        → Step n s s'

  -- The states that `n` threads with these programs reach.
  pub data Reach (n : ℕ) (x : S) (programs : ℕ → List Op) : System S L Op → Type 0 where
    start : Reach n x programs (launched x programs)
    next : {s s' : System S L Op} → Reach n x programs s → Step n s s' → Reach n x programs s'
