-- ===== src/Cache/Swaps/Members.antt =====
-- cache.hpp: the body of `swap`, one exchange of two members after the other.
use cachemere.Common.{
  ℕ, ◌≡◌, refl, sym, ◌∙◌, ap, fun_ext, subst, Option, none, some, List, [], ◌∷◌, arith, ◌==◌, false,
  ℕ_discrete,
}
use cachemere.Cache.{Cache, Template}
use cachemere.Cache.Locks.{assign}
use cachemere.Cache.Operations.{swap}
use cachemere.Cache.Swaps.{swap_in}

pub data Member : Type 0 where
  statistics_window_size : Member
  insertion_policy : Member
  eviction_policy : Member
  constraint_policy : Member
  data_map : Member
  hit_rate_acc : Member
  byte_hit_rate_acc : Member

-- In the order of the source.
abbrev pub members : List Member
members =
    statistics_window_size ∷ insertion_policy ∷ eviction_policy ∷ constraint_policy ∷ data_map
    ∷ hit_rate_acc ∷ byte_hit_rate_acc ∷ []

module _ {I E C D A : Type 0} where
  -- `std::swap` of one member.
  unfoldable pub exchange :
      Member → Cache I E C D A → Cache I E C D A → Cache I E C D A × Cache I E C D A
  exchange statistics_window_size a b = (
    record a { statistics_window_size = b.statistics_window_size },
    record b { statistics_window_size = a.statistics_window_size },
  )
  exchange insertion_policy a b = (
    record a { insertion_policy = b.insertion_policy },
    record b { insertion_policy = a.insertion_policy },
  )
  exchange eviction_policy a b = (
    record a { eviction_policy = b.eviction_policy },
    record b { eviction_policy = a.eviction_policy },
  )
  exchange constraint_policy a b = (
    record a { constraint_policy = b.constraint_policy },
    record b { constraint_policy = a.constraint_policy },
  )
  exchange data_map a b = (record a { items = b.items }, record b { items = a.items })
  exchange hit_rate_acc a b =
      (record a { hit_rate_acc = b.hit_rate_acc }, record b { hit_rate_acc = a.hit_rate_acc })
  exchange byte_hit_rate_acc a b = (
    record a { byte_hit_rate_acc = b.byte_hit_rate_acc },
    record b { byte_hit_rate_acc = a.byte_hit_rate_acc },
  )

  -- One exchange, or, after the last one, the destruction of the guards.
  unfoldable pub advance_swap :
      List Member
      → Cache I E C D A
      → Cache I E C D A
      → Cache I E C D A × Cache I E C D A × Option (List Member)
  advance_swap [] a b = (a, b, none)
  advance_swap (m ∷ rest) a b = let (a', b') = exchange m a b in (a', b', some rest)

  abbrev both :
      ℕ → ℕ → Cache I E C D A × Cache I E C D A → (ℕ → Cache I E C D A) → ℕ → Cache I E C D A
  both x y p s = assign (assign s x p.0) y p.1

  -- The exchanges, each on what the one before left in the store.
  unfoldable pub exchange_in : List Member → ℕ → ℕ → (ℕ → Cache I E C D A) → ℕ → Cache I E C D A
  exchange_in [] x y s = both x y (s x, s y) s
  exchange_in (m ∷ rest) x y s = exchange_in rest x y (both x y (exchange m (s x) (s y)) s)

  abbrev exchange_all :
      List Member → Cache I E C D A × Cache I E C D A → Cache I E C D A × Cache I E C D A
  exchange_all [] p = p
  exchange_all (m ∷ rest) p = exchange_all rest (exchange m p.0 p.1)

  exchange_same : (m : Member) (a : Cache I E C D A) → exchange m a a ≡ (a, a)
  unfolding exchange
  exchange_same statistics_window_size a = refl
  exchange_same insertion_policy a = refl
  exchange_same eviction_policy a = refl
  exchange_same constraint_policy a = refl
  exchange_same data_map a = refl
  exchange_same hit_rate_acc a = refl
  exchange_same byte_hit_rate_acc a = refl

  both_self : (x y : ℕ) (s : ℕ → Cache I E C D A) → both x y (s x, s y) s ≡ s
  both_self x y s = fun_ext (λ z. ground arith)

  -- With itself a cache stays as it is, member by member.
  exchange_in-same : (ms : List Member) (x : ℕ) (s : ℕ → Cache I E C D A) → exchange_in ms x x s ≡ s
  unfolding exchange_in
  exchange_in-same [] x s = both_self x x s
  exchange_in-same (m ∷ rest) x s =
      ap (λ p. exchange_in rest x x (both x x p s)) (exchange_same m (s x))
      ∙ ap (exchange_in rest x x) (both_self x x s)
      ∙ exchange_in-same rest x s

  both-both :
      (x y : ℕ) (p q : Cache I E C D A × Cache I E C D A) (s : ℕ → Cache I E C D A)
      → both x y q (both x y p s) ≡ both x y q s
  both-both x y p q s = fun_ext (λ z. ground arith)

  exchange_in-other :
      (ms : List Member) (x y : ℕ) (p : Cache I E C D A × Cache I E C D A) (s : ℕ → Cache I E C D A)
      → (x == y) ≡ false
      → exchange_in ms x y (both x y p s) ≡ both x y (exchange_all ms p) s
  unfolding exchange_in
  exchange_in-other [] x y p s other = fun_ext (λ z. ground (arith, other))
  exchange_in-other (m ∷ rest) x y p s other =
      let first : both x y p s x ≡ p.0 = ground (arith, other) in
      let second : both x y p s y ≡ p.1 = ground arith in
      ap (λ a. exchange_in rest x y (both x y (exchange m a (both x y p s y)) (both x y p s))) first
      ∙ ap (λ b. exchange_in rest x y (both x y (exchange m p.0 b) (both x y p s))) second
      ∙ ap (exchange_in rest x y) (both-both x y p (exchange m p.0 p.1) s)
      ∙ exchange_in-other rest x y (exchange m p.0 p.1) s other

module _ {K V I E C D A R : Type 0} (dec : Discrete K) (t : Template K V I E C D A R) where
  exchange_all-members : (a b : Cache I E C D A) → exchange_all members (a, b) ≡ swap dec t a b
  unfolding exchange swap
  exchange_all-members a b = refl

  swap_in-same : (x : ℕ) (s : ℕ → Cache I E C D A) → swap_in dec t s x x ≡ s
  unfolding swap_in swap
  swap_in-same x s = both_self x x s

  -- One after the other they make the swap.
  pub exchange_in-members :
      (x y : ℕ) (s : ℕ → Cache I E C D A) → exchange_in members x y s ≡ swap_in dec t s x y
  unfolding swap_in
  exchange_in-members x y s = elim (ℕ_discrete x y) [
    | yes same ↦
        subst (λ z. exchange_in members x z s ≡ swap_in dec t s x z) same
          (exchange_in-same members x s ∙ sym (swap_in-same x s))
    | no other ↦
        ap (exchange_in members x y) (sym (both_self x y s))
        ∙ exchange_in-other members x y (s x, s y) s (ground (arith, other))
        ∙ ap (λ p. both x y p s) (exchange_all-members (s x) (s y))
  ]
