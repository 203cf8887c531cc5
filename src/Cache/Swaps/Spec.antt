-- ===== src/Cache/Swaps/Spec.antt =====
-- What several caches promise: a map each, as in Cache/History/Spec, and that `swap` exchanges two.
use cachemere.Common.{ℕ, ◌≡◌, List, [], ◌∷◌}
use cachemere.Cache.History.{Command, Reply, done}
use cachemere.Cache.History.Spec.{Contents, IsAllowed}
use cachemere.Cache.Locks.{on, swaps}
use cachemere.Cache.Swaps.{StoreCommand}

module _ {K V : Type 0} (dec : Discrete K) where
  pub data IsAllowedIn (m m' : ℕ → Contents K V) : StoreCommand K V → Reply K V → Type 0 where
    alone :
        {i : ℕ} {command : Command K V} {reply : Reply K V}
        → IsAllowed dec (m i) (m' i) command reply
        → ((x : ℕ) → (i ≡ x → ⊥) → (k : K) → m' x k ≡ m x k)
        → IsAllowedIn m m' (on i command) reply
    exchanges :
        {lhs rhs : ℕ}
        → ((k : K) → m' lhs k ≡ m rhs k)
        → ((k : K) → m' rhs k ≡ m lhs k)
        → ((x : ℕ) → (lhs ≡ x → ⊥) → (rhs ≡ x → ⊥) → (k : K) → m' x k ≡ m x k)
        → IsAllowedIn m m' (swaps lhs rhs) done

  pub data AreAllowedIn
      : (ℕ → Contents K V)
        → (ℕ → Contents K V)
        → List (StoreCommand K V)
        → List (Reply K V)
        → Type 0 where
    finish : {m : ℕ → Contents K V} → AreAllowedIn m m [] []
    follow :
        {m m' m'' : ℕ → Contents K V} {command : StoreCommand K V} {reply : Reply K V}
        {commands : List (StoreCommand K V)} {replies : List (Reply K V)}
        → IsAllowedIn m m' command reply
        → AreAllowedIn m' m'' commands replies
        → AreAllowedIn m m'' (command ∷ commands) (reply ∷ replies)
