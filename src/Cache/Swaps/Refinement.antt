-- ===== src/Cache/Swaps/Refinement.antt =====
-- Several caches against Cache/Swaps/Spec.
use cachemere.Common.{
  run_all, ℕ, ◌<◌, ◌≡◌, refl, sym, ap, subst, true, false, ◌==◌, if◌then◌else◌, Option, List, [],
  ◌∷◌, All, arith, ok,
}
use cachemere.Item.{Item, size_mod}
use cachemere.Policy.Laws.{RemovalLaws}
use cachemere.Cache.{Cache, Template}
use cachemere.Cache.Operations.{swap}
use cachemere.Cache.Invariant.{Contract}
use cachemere.Cache.History.{Command, Reply, done}
use cachemere.Cache.History.Spec.{IsAllowed}
use cachemere.Cache.History.Answers.{contents, IsTame, IsReady}
use cachemere.Cache.History.Commands.{command-IsAnswered}
use cachemere.Cache.Locks.{on, swaps, assign}
use cachemere.Cache.Swaps.{StoreCommand, swap_in, store_step, store_run}
use cachemere.Cache.Swaps.Spec.{IsAllowedIn, alone, exchanges, AreAllowedIn, finish, follow}

module _ {S : Type 0} (s : ℕ → S) (i : ℕ) (x : S) where
  assign_all : (P : S → Type 0) → P x → ((j : ℕ) → P (s j)) → (j : ℕ) → P (assign s i x j)
  assign_all P h k j = elim (i == j) as (λ b. P (if b then x else s j)) [ true ↦ h | false ↦ k j ]

  assign_same : assign s i x i ≡ x
  assign_same = ground arith

  assign_other : (j : ℕ) → (i ≡ j → ⊥) → assign s i x j ≡ s j
  assign_other j ne = ground (arith, ne)

module _ {K V I E C D A R : Type 0} (t : Template K V I E C D A R) where
  -- The maps that the caches stand for.
  abbrev pub all_contents : (ℕ → Cache I E C D A) → ℕ → K → Option V
  all_contents s i = contents t (s i)

module _ {K V I E C D A R : Type 0} {dec : Discrete K} {t : Template K V I E C D A R}
    {Good : I → Type 0} {Inv : E → Type 0} {weight : Item V → ℕ} {used limit : C → ℕ}
    (laws : Contract dec t Good Inv weight used limit) where
  abbrev pub AllReady : ℕ → (ℕ → Cache I E C D A) → Type 0
  AllReady most s = (i : ℕ) → IsReady laws most (s i)

module _ {K V I E C D A R : Type 0} (t : Template K V I E C D A R) (weight : Item V → ℕ)
    (CanRemove : Type 0) where
  abbrev pub IsTameIn : ℕ → StoreCommand K V → Type 0
  IsTameIn most (on i command) = IsTame t weight CanRemove most command
  IsTameIn most (swaps lhs rhs) = Unit

module _ {K V I E C D A R : Type 0} {dec : Discrete K} {t : Template K V I E C D A R}
    {Good : I → Type 0} {Inv : E → Type 0} {weight : Item V → ℕ} {used limit : C → ℕ}
    (laws : Contract dec t Good Inv weight used limit) (CanRemove : Type 0)
    (removal : CanRemove → RemovalLaws dec t.eviction Inv) where
  pub record IsAnsweredIn (most : ℕ) (s : ℕ → Cache I E C D A) (command : StoreCommand K V)
      : Type 0 where
    pub after : ℕ → Cache I E C D A
    pub reply : Reply K V
    pub ran : store_step dec t command s ≡ ok (after, reply)
    pub ready : AllReady laws most after
    pub allowed : IsAllowedIn dec (all_contents t s) (all_contents t after) command reply

  on-IsAnsweredIn :
      (most : ℕ) (s : ℕ → Cache I E C D A) (i : ℕ) (command : Command K V)
      → most < size_mod
      → AllReady laws most s
      → IsTame t weight CanRemove most command
      → IsAnsweredIn most s (on i command)
  unfolding store_step
  on-IsAnsweredIn most s i command fits ready tame =
      let a = command-IsAnswered laws CanRemove removal most command (s i) fits (ready i) tame in
      record {
        after = assign s i a.after;
        reply = a.reply;
        ran = rw (a.ran, store_step) refl;
        ready = assign_all s i a.after (IsReady laws most) a.ready ready;
        allowed =
            alone
              (subst (λ c. IsAllowed dec (contents t (s i)) (contents t c) command a.reply)
                (sym (assign_same s i a.after)) a.allowed)
              (λ x ne k. ap (λ c. contents t c k) (assign_other s i a.after x ne));
      }

  -- Also where `lhs` is `rhs`.
  swap-IsAnsweredIn :
      (most : ℕ) (s : ℕ → Cache I E C D A) (lhs rhs : ℕ)
      → AllReady laws most s
      → IsAnsweredIn most s (swaps lhs rhs)
  unfolding store_step swap_in swap
  swap-IsAnsweredIn most s lhs rhs ready = record {
    after = swap_in dec t s lhs rhs;
    reply = done;
    ran = refl;
    ready =
        assign_all (assign s lhs (s rhs)) rhs (s lhs) (IsReady laws most) (ready lhs)
          (assign_all s lhs (s rhs) (IsReady laws most) (ready rhs) ready);
    allowed =
        exchanges (λ k. ap (λ c. contents t c k) left)
          (λ k. ap (λ c. contents t c k) (assign_same (assign s lhs (s rhs)) rhs (s lhs)))
          (λ x nl nr k. ap (λ c. contents t c k) (others x nl nr));
  }
    where
      left : assign (assign s lhs (s rhs)) rhs (s lhs) lhs ≡ s rhs
      left = ground arith

      others :
          (x : ℕ)
          → (lhs ≡ x → ⊥)
          → (rhs ≡ x → ⊥)
          → assign (assign s lhs (s rhs)) rhs (s lhs) x ≡ s x
      others x nl nr = ground (arith, nl, nr)

  pub request-IsAnsweredIn :
      (most : ℕ) (s : ℕ → Cache I E C D A) (command : StoreCommand K V)
      → most < size_mod
      → AllReady laws most s
      → IsTameIn t weight CanRemove most command
      → IsAnsweredIn most s command
  request-IsAnsweredIn most s (on i command) fits ready tame =
      on-IsAnsweredIn most s i command fits ready tame
  request-IsAnsweredIn most s (swaps lhs rhs) fits ready tame =
      swap-IsAnsweredIn most s lhs rhs ready

  -- Any history of public operations on several valid caches of one type, and of swaps of two of
  -- them or of one with itself, with `remove` and `retain` only if the eviction policy can evict
  -- any key that it holds, with items whose sizes do not wrap and with limits of at most `most`,
  -- below the modulus of `size_t`, fails no assertion and ends in valid caches with such limits.
  -- Its replies are those of one map that may forget for each cache: an operation is answered by
  -- the map of its cache as the specification of a single cache allows, and leaves the other maps
  -- alone; a swap exchanges two maps and leaves the others alone.
  pub store_run-AreAllowed :
      (most : ℕ) (commands : List (StoreCommand K V)) (s : ℕ → Cache I E C D A)
      → most < size_mod
      → AllReady laws most s
      → All (IsTameIn t weight CanRemove most) commands
      → (s' : ℕ → Cache I E C D A) × (replies : List (Reply K V)) × (store_run dec t commands s
          ≡ ok (s', replies))
        × AllReady laws most s'
        × AreAllowedIn dec (all_contents t s) (all_contents t s') commands replies
  unfolding store_run run_all
  store_run-AreAllowed most [] s fits ready tame = (s, [], refl, ready, finish)
  store_run-AreAllowed most (command ∷ commands) s fits ready tame =
      let a = request-IsAnsweredIn most s command fits ready tame.0 in
      let (s', replies, rest, ready', allowed) =
        store_run-AreAllowed most commands a.after fits a.ready tame.1 in
      (s', a.reply ∷ replies, rw (a.ran, rest, run_all) refl, ready', follow a.allowed allowed)
