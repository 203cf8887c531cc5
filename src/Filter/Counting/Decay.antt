-- ===== src/Filter/Counting/Decay.antt =====
-- What `decay` of a counting filter does to the estimates.
use cachemere.Common.{
  ℕ, zero, suc, ◌/◌, ◌≤◌, min, ◌≡◌, refl, ◌∙◌, ap, true, List, [], ◌∷◌, arith, ok, contains,
  ℕ_discrete,
}
use cachemere.Filter.Counting.{CountingBloomFilter, get, decay, estimate, max_count, decay_loop}
use cachemere.Filter.Counting.Minimum.{minimum}
use cachemere.Filter.Counting.Estimate.{Positions-of}
use cachemere.Filter.Counting.Totals.{IsUsable, length-decay_loop}
use cachemere.Filter.Counting.Nonzero.{AllFit, halves, decay_loop-halves}

get-halves : (f : List ℕ) (i : ℕ) → get (halves f) i ≡ get f i / 2
unfolding get
get-halves [] i = omega arith
get-halves (x ∷ f) zero = refl
get-halves (x ∷ f) (suc i) = get-halves f i

get-AllFit : (f : List ℕ) (i : ℕ) → AllFit f → get f i ≤ max_count
unfolding get AllFit
get-AllFit [] i fits = omega arith
get-AllFit (x ∷ f) zero fits = fits.0
get-AllFit (x ∷ f) (suc i) fits = get-AllFit f i fits.1

minimum-halves :
    (f is : List ℕ) (least : ℕ) → minimum (halves f) is (least / 2) ≡ minimum f is least / 2
unfolding minimum
minimum-halves f [] least = refl
minimum-halves f (i ∷ is) least =
    let halved : min (get (halves f) i) (least / 2) ≡ min (get f i) least / 2 =
      omega (arith, get-halves f i) in
    ap (minimum (halves f) is) halved ∙ minimum-halves f is (min (get f i) least)

-- At some positions, the bound of the counters does not matter.
minimum-halves_max :
    (f is : List ℕ) (i : ℕ)
    → AllFit f
    → contains ℕ_discrete i is ≡ true
    → minimum (halves f) is max_count ≡ minimum f is max_count / 2
unfolding minimum
minimum-halves_max f [] i fits there = absurd (ground arith)
minimum-halves_max f (j ∷ is) i fits there =
    let start : min (get (halves f) j) max_count ≡ min (get f j) max_count / 2 =
      omega (arith, get-halves f j, get-AllFit f j fits) in
    ap (minimum (halves f) is) start ∙ minimum-halves f is (min (get f j) max_count)

module _ {K : Type 0} (hash : K → ℕ) where
  -- `decay` of a `CountingBloomFilter` of a positive size, with counters of 32 bits, halves the
  -- estimate of each key, rounded down.
  pub decay-estimate :
      (b : CountingBloomFilter) (k : K)
      → IsUsable b
      → AllFit b.filter
      → (e : ℕ) × (estimate hash b k ≡ ok e) × (estimate hash (decay b) k ≡ ok (e / 2))
  unfolding decay
  decay-estimate b k u fits =
      let (is, p) = Positions-of hash b k u.counters u.hashes in
      let (i, there) = p.first in
      let f = (decay_loop b.filter b.nb_nonzero).0 in
      (
        minimum b.filter is max_count,
        p.estimated b.filter b.nb_nonzero refl,
        p.estimated f (decay_loop b.filter b.nb_nonzero).1 (length-decay_loop b.filter b.nb_nonzero)
            ∙ ap (λ g. ok (minimum g is max_count)) (decay_loop-halves b.filter b.nb_nonzero)
            ∙ ap ok (minimum-halves_max b.filter is i fits there),
      )
