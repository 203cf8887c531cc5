-- ===== src/Cache/History/Refinement.antt =====
-- The cache against Cache/History/Spec.
use cachemere.Common.{run_all, All, ℕ, ◌<◌, ◌≡◌, refl, List, [], ◌∷◌, ok}
use cachemere.Item.{Item, size_mod}
use cachemere.Policy.Laws.{RemovalLaws}
use cachemere.Cache.{Cache, Template}
use cachemere.Cache.Invariant.{Contract}
use cachemere.Cache.History.{Command, Reply, run}
use cachemere.Cache.History.Spec.{AreAllowed, finish, follow}
use cachemere.Cache.History.Answers.{contents, IsTame, IsReady}
use cachemere.Cache.History.Commands.{command-IsAnswered}

module _ {K V I E C D A R : Type 0} (t : Template K V I E C D A R) (weight : Item V → ℕ)
    (CanRemove : Type 0) where
  abbrev pub AreTame : ℕ → List (Command K V) → Type 0
  AreTame most = All (IsTame t weight CanRemove most)

module _ {K V I E C D A R : Type 0} {dec : Discrete K} {t : Template K V I E C D A R}
    {Good : I → Type 0} {Inv : E → Type 0} {weight : Item V → ℕ} {used limit : C → ℕ}
    (laws : Contract dec t Good Inv weight used limit) (CanRemove : Type 0)
    (removal : CanRemove → RemovalLaws dec t.eviction Inv) where
  -- Any history of public operations (`insert`, `find`, `contains`, `remove`, `clear`, `retain`,
  -- `update_constraint`, `import`, `collect_into`, `for_each`, `number_of_items` and the setter of
  -- the window) on a valid cache, with `remove` and `retain` only if its eviction policy can evict
  -- any key that it holds, with items whose sizes do not wrap and with limits of at most `most`,
  -- below the modulus of `size_t`, fails no assertion and ends in a valid cache with such a limit.
  -- Its replies are those of a map from keys to values: a stored value takes its key's place, and
  -- keys may be forgotten only when a value is stored or the bound changes; a refused value changes
  -- nothing; a lookup answers exactly what the map has; `remove`, `clear` and `retain` drop exactly
  -- their keys; `import` stores a first part of its pairs; `collect_into`, `for_each` and
  -- `number_of_items` go through its pairs, each once, and change nothing.
  pub run-AreAllowed :
      (most : ℕ) (commands : List (Command K V)) (c : Cache I E C D A)
      → most < size_mod
      → IsReady laws most c
      → AreTame t weight CanRemove most commands
      → (c' : Cache I E C D A) × (replies : List (Reply K V)) × (run dec t commands c
          ≡ ok (c', replies))
        × IsReady laws most c'
        × AreAllowed dec (contents t c) (contents t c') commands replies
  unfolding run run_all
  run-AreAllowed most [] c fits ready tame = (c, [], refl, ready, finish)
  run-AreAllowed most (command ∷ commands) c fits ready tame =
      let a = command-IsAnswered laws CanRemove removal most command c fits ready tame.0 in
      let (c', replies, rest, ready', allowed) =
        run-AreAllowed most commands a.after fits a.ready tame.1 in
      (c', a.reply ∷ replies, rw (a.ran, rest, run_all) refl, ready', follow a.allowed allowed)
