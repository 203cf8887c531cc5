-- ===== src/Filter/Counting/Counts.antt =====
-- The estimates of a counting filter against the true counts.
use cachemere.Common.{
  ℕ, zero, suc, ◌+◌, ◌<◌, ◌≤◌, ◌≡◌, refl, sym, ◌∙◌, ap, inl, inr, List, [], ◌∷◌, arith, Outcome, ok,
  ok_inj, ◌>>=◌, length, ite, subst, if◌then◌else◌, ◌==◌,
}
use cachemere.Filter.Counting.{CountingBloomFilter, get, bump, add, estimate, max_count}
use cachemere.Filter.Counting.Minimum.{minimum, minimum-le_get, bump_lem}
use cachemere.Filter.Counting.Estimate.{Positions-of, counting_add-estimate}
use cachemere.Filter.Counting.Totals.{IsUsable, add_total, estimate_total}

-- No counter is above `n`.
abbrev pub IsBelow : CountingBloomFilter → ℕ → Type 0
IsBelow b n = (i : ℕ) → get b.filter i ≤ n

abbrev pub AllAtMost : ℕ → List ℕ → Type 0
AllAtMost n [] = Unit
AllAtMost n (x ∷ xs) = (x ≤ n) × AllAtMost n xs

pub AllAtMost-IsBelow : (b : CountingBloomFilter) (n : ℕ) → AllAtMost n b.filter → IsBelow b n
unfolding get
AllAtMost-IsBelow b n below = of_list b.filter below
  where
    of_list : (f : List ℕ) → AllAtMost n f → (i : ℕ) → get f i ≤ n
    of_list [] below i = omega arith
    of_list (x ∷ f) below zero = below.0
    of_list (x ∷ f) below (suc i) = of_list f below.1 i

module _ {K : Type 0} (hash : K → ℕ) where
  -- The keys in turn.
  pub add_all : List K → CountingBloomFilter → Outcome CountingBloomFilter
  add_all [] b = ok b
  add_all (k ∷ ks) b = do b' ← add hash b k; add_all ks b'

  pub estimate-IsBelow :
      (b : CountingBloomFilter) (k : K) (n e : ℕ)
      → IsUsable b
      → IsBelow b n
      → estimate hash b k ≡ ok e
      → e ≤ n
  estimate-IsBelow b k n e u below run =
      let (is, p) = Positions-of hash b k u.counters u.hashes in
      let (i, there) = p.first in
      let least = ok_inj _ e (sym (p.estimated b.filter b.nb_nonzero refl) ∙ run) in
      omega (arith, least, minimum-le_get b.filter is max_count i there, below i)

  add-IsBelow :
      (b b' : CountingBloomFilter) (k : K) (n : ℕ)
      → IsUsable b
      → IsBelow b n
      → n < max_count
      → add hash b k ≡ ok b'
      → IsBelow b' (n + 1)
  unfolding add
  add-IsBelow b b' k n u below small run =
      let (is, p) = Positions-of hash b k u.counters u.hashes in
      let (i, there) = p.first in
      let m = minimum b.filter is max_count in
      let low : m ≤ n = omega (arith, minimum-le_get b.filter is max_count i there, below i) in
      let inc : ℕ = if m == 0 then 1 else 0 in
      let (size, values) = bump_lem is m inc b.filter b.nb_nonzero p.inside (omega (arith, low)) in
      let c : CountingBloomFilter = record b {
        filter = (bump is m inc b.filter b.nb_nonzero).0;
        nb_nonzero = (bump is m inc b.filter b.nb_nonzero).1;
      } in
      let ran : add hash b k ≡ ok c = rw p.gathered refl in
      λ j.
        let same : get b'.filter j ≡ get c.filter j =
          ap (λ x. get x.filter j) (ok_inj b' c (sym run ∙ ran)) in
        ground (arith, same, values j, below j, low)

  module _ (dec : Discrete K) where
    pub occurrences : K → List K → ℕ
    occurrences k [] = 0
    occurrences k (j ∷ ks) = ite (dec j k) (suc (occurrences k ks)) (occurrences k ks)

    -- One addition.
    add_one :
        (b : CountingBloomFilter) (k : K) (n : ℕ)
        → IsUsable b
        → IsBelow b n
        → n < max_count
        → (b' : CountingBloomFilter) × (add hash b k ≡ ok b')
          × IsUsable b'
          × IsBelow b' (n + 1)
          × ((j : K)
              → (d : ℕ) × (d' : ℕ) × (estimate hash b j ≡ ok d)
                × (estimate hash b' j ≡ ok d')
                × (ite (dec k j) (d + 1) d ≤ d'))
    add_one b k n u below small =
        let (e, counted, rest) = counting_add-estimate hash b k u.counters u.hashes in
        elim rest [
          | inl full ↦ absurd (omega (arith, full, estimate-IsBelow b k n e u below counted))
          | inr (b', run, raised, grown) ↦
              let (c, ran, usable) = add_total hash b k u in
              let same : c ≡ b' = ok_inj c b' (sym ran ∙ run) in
              (
                b',
                run,
                subst IsUsable same usable,
                add-IsBelow b b' k n u below small run,
                λ j.
                    let (d, d', before, after, le) = grown j in
                    (d, d', before, after, grind (arith, before, after, counted, raised, le)),
              )
        ]

    -- Adding keys to a `CountingBloomFilter` of a positive size whose counters are at most `n`,
    -- where `n` and the number of keys do not pass the greatest number of 32 bits together, fails
    -- no assertion. The estimate of each key grows by at least its occurrences, and is at most `n`
    -- and the number of keys.
    pub add_all_lem :
        (ks : List K) (b : CountingBloomFilter) (n : ℕ)
        → IsUsable b
        → IsBelow b n
        → n + length ks ≤ max_count
        → (b' : CountingBloomFilter) × (add_all ks b ≡ ok b')
          × ((j : K)
              → (d : ℕ) × (d' : ℕ) × (estimate hash b j ≡ ok d)
                × (estimate hash b' j ≡ ok d')
                × (d + occurrences j ks ≤ d')
                × (d' ≤ n + length ks))
    unfolding add_all occurrences
    add_all_lem [] b n u below small = (
      b,
      refl,
      λ j.
          let (d, counted) = estimate_total hash b j u in
          (
            d,
            d,
            counted,
            counted,
            omega arith,
            omega (arith, estimate-IsBelow b j n d u below counted),
          ),
    )
    add_all_lem (k ∷ ks) b n u below small =
        let (mid, run, u', below', raised) = add_one b k n u below (omega (arith, small)) in
        let (b', rest, grown) = add_all_lem ks mid (n + 1) u' below' (omega (arith, small)) in
        (
          b',
          rw (run, add_all) rest,
          λ j.
              let (d, d', before, after, le) = raised j in
              let (c, c', before', after', le', bound) = grown j in
              let same : d' ≡ c = ok_inj d' c (sym after ∙ before') in
              (d, c', before, after', ground (arith, le, le', same), omega (arith, bound)),
        )
