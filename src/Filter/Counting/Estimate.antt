-- ===== src/Filter/Counting/Estimate.antt =====
-- The estimates of a counting filter, and what `add` does to them.
use cachemere.Common.{
  ℕ, zero, suc, ◌+◌, ◌<◌, ◌≤◌, min, ◌≡◌, refl, sym, ◌∙◌, ap, true, List, [], ◌∷◌, ◌++◌, arith, ok,
  ltb, ◌==◌, if◌then◌else◌, length, contains, ℕ_discrete, Bool-cases, ◌⊎◌, inl, inr,
}
use cachemere.Filter.HashMixer.{HashMixer, make_mixer, draw, draw_lem}
use cachemere.Filter.Counting.{
  CountingBloomFilter, max_count, get, gather, bump, estimate_loop, add, estimate,
}
use cachemere.Filter.Counting.Minimum.{minimum, minimum-le, minimum_mono, minimum-bump}
use mathlib.Core.List.{append-nil, append_assoc}

gather_step :
    (n : ℕ) (mixer mixer' : HashMixer) (f acc : List ℕ) (least i : ℕ)
    → draw mixer ≡ ok (i, mixer')
    → i < length f
    → gather (suc n) mixer f acc least ≡ gather n mixer' f (acc ++ i ∷ []) (min (get f i) least)
unfolding gather
gather_step n mixer mixer' f acc least i drawn inside = rw (drawn, gather) (ground arith)

estimate_step :
    (n : ℕ) (mixer mixer' : HashMixer) (f : List ℕ) (least i : ℕ)
    → draw mixer ≡ ok (i, mixer')
    → i < length f
    → estimate_loop (suc n) mixer f least ≡ estimate_loop n mixer' f (min (get f i) least)
unfolding estimate_loop
estimate_step n mixer mixer' f least i drawn inside = rw (drawn, estimate_loop) (ground arith)

-- The positions of a key, for all filters of one size.
positions :
    (n : ℕ) (mixer : HashMixer)
    → 0 < mixer.value_range
    → (is : List ℕ) × (length is ≡ n)
      × ((i : ℕ) → contains ℕ_discrete i is ≡ true → i < mixer.value_range)
      × ((f acc : List ℕ) (least : ℕ)
          → length f ≡ mixer.value_range
          → gather n mixer f acc least ≡ ok (acc ++ is, minimum f is least))
      × ((f : List ℕ) (least : ℕ)
          → length f ≡ mixer.value_range
          → estimate_loop n mixer f least ≡ ok (minimum f is least))
unfolding gather estimate_loop minimum
positions zero mixer h = (
  [],
  refl,
  λ i e. absurd (ground arith),
  λ f acc least e. ap (λ l. ok (l, least)) (sym (append-nil acc)),
  λ f least e. refl,
)
positions (suc n) mixer h =
    let (i, mixer', drawn, below, range) = draw_lem mixer h in
    let (is, size, inside, gathered, estimated) = positions n mixer' (rw range h) in
    (
      i ∷ is,
      ap suc size,
      λ j e. ground (arith, inside j, range, below),
      λ f acc least e.
          gather_step n mixer mixer' f acc least i drawn (omega (arith, e, below))
          ∙ gathered f (acc ++ i ∷ []) (min (get f i) least) (e ∙ sym range)
          ∙ ap (λ l. ok (l, minimum f is (min (get f i) least))) (append_assoc acc (i ∷ []) is),
      λ f least e.
          estimate_step n mixer mixer' f least i drawn (omega (arith, e, below))
          ∙ estimated f (min (get f i) least) (e ∙ sym range),
    )

module _ {K : Type 0} (hash : K → ℕ) where
  -- One list of positions serves for all filters of a size.
  pub record Positions (b : CountingBloomFilter) (k : K) (is : List ℕ) : Type 0 where
    pub inside : (i : ℕ) → contains ℕ_discrete i is ≡ true → i < length b.filter
    pub first : (i : ℕ) × (contains ℕ_discrete i is ≡ true)
    pub gathered :
        gather b.nb_hashes (make_mixer hash k (length b.filter)) b.filter [] max_count
        ≡ ok (is, minimum b.filter is max_count)
    pub estimated :
        (f : List ℕ) (nz : ℕ)
        → length f ≡ length b.filter
        → estimate hash (record b { filter = f; nb_nonzero = nz }) k ≡ ok (minimum f is max_count)

  pub Positions-of :
      (b : CountingBloomFilter) (k : K)
      → 0 < length b.filter
      → 0 < b.nb_hashes
      → (is : List ℕ) × Positions b k is
  unfolding estimate make_mixer
  Positions-of b k h hashes =
      let mixer = make_mixer hash k (length b.filter) in
      let (is, size, inside, gathered, estimated) = positions b.nb_hashes mixer h in
      (
        is,
        record {
          inside = inside;
          first = listed is (omega (arith, size, hashes));
          gathered = gathered b.filter [] max_count refl;
          estimated = λ f nz e. rw e (ground (arith, estimated f max_count e));
        },
      )
    where
      listed : (l : List ℕ) → 0 < length l → (i : ℕ) × (contains ℕ_discrete i l ≡ true)
      listed [] h = absurd (omega arith)
      listed (i ∷ l) h = (i, ground arith)

  -- On a `CountingBloomFilter` with at least one counter and one hash, `estimate` fails no
  -- assertion. Unless the estimate of the key is already the greatest number of 32 bits, `add`
  -- fails none either, the estimate of the key is then one higher, and the estimate of no key is
  -- lower.
  pub counting_add-estimate :
      (b : CountingBloomFilter) (k : K)
      → 0 < length b.filter
      → 0 < b.nb_hashes
      → (e : ℕ) × (estimate hash b k ≡ ok e)
        × ((e ≡ max_count)
            ⊎ ((b' : CountingBloomFilter) × (add hash b k ≡ ok b')
                × (estimate hash b' k ≡ ok (e + 1))
                × ((j : K)
                    → (d : ℕ) × (d' : ℕ) × (estimate hash b j ≡ ok d)
                      × (estimate hash b' j ≡ ok d')
                      × (d ≤ d'))))
  unfolding add
  counting_add-estimate b k h hashes =
      let (is, p) = Positions-of b k h hashes in
      let m = minimum b.filter is max_count in
      let inc : ℕ = if m == 0 then 1 else 0 in
      (
        m,
        p.estimated b.filter b.nb_nonzero refl,
        elim (Bool-cases (ltb m max_count)) [
          | inr full ↦ inl (ground (arith, full, minimum-le b.filter is max_count))
          | inl small ↦
              let (raised, size, grown) =
                minimum-bump b.filter is inc b.nb_nonzero p.inside (ground (arith, small)) in
              let (f, nz) = bump is m inc b.filter b.nb_nonzero in
              inr (
                record b { filter = f; nb_nonzero = nz },
                rw p.gathered refl,
                p.estimated f nz size ∙ ap ok raised,
                λ j.
                    let (js, q) = Positions-of b j h hashes in
                    (
                      minimum b.filter js max_count,
                      minimum f js max_count,
                      q.estimated b.filter b.nb_nonzero refl,
                      q.estimated f nz size,
                      minimum_mono b.filter f js max_count max_count grown (omega arith),
                    ),
              )
        ],
      )
