-- ===== src/Filter/Counting/Totals.antt =====
-- The operations of a counting filter that has a counter and a hash.
use cachemere.Common.{
  map, ℕ, suc, ◌+◌, ◌%◌, ◌^◌, ◌<◌, ◌≡◌, refl, sym, ok_inj, ◌∙◌, ap, List, [], ◌∷◌, ok, ◌==◌,
  if◌then◌else◌, length, Bool-cases, inl, inr, arith,
}
use cachemere.Filter.Counting.{
  CountingBloomFilter, max_count, get, increment, bump, add, estimate, clear, decay, decay_loop,
}
use cachemere.Filter.Counting.Minimum.{minimum, minimum-le, length-increment}
use cachemere.Filter.Counting.Estimate.{Positions-of, counting_add-estimate}

pub length-bump :
    (is : List ℕ) (m inc : ℕ) (f : List ℕ) (nz : ℕ) → length (bump is m inc f nz).0 ≡ length f
unfolding bump
length-bump [] m inc f nz = refl
length-bump (i ∷ is) m inc f nz = elim (Bool-cases (get f i == m)) [
  | inl least ↦
      rw (least, bump)
        (length-bump is m inc (increment f i) ((nz + inc) % 2 ^ 32) ∙ length-increment f i)
  | inr above ↦ rw (above, bump) (length-bump is m inc f nz)
]

pub length-decay_loop : (f : List ℕ) (nz : ℕ) → length (decay_loop f nz).0 ≡ length f
unfolding decay_loop
length-decay_loop [] nz = refl
length-decay_loop (x ∷ f) nz = ap suc (length-decay_loop f _)

-- It has a counter and a hash.
pub record IsUsable (b : CountingBloomFilter) : Type 0 where
  pub counters : 0 < length b.filter
  pub hashes : 0 < b.nb_hashes

pub decay-IsUsable : (b : CountingBloomFilter) → IsUsable b → IsUsable (decay b)
unfolding decay
decay-IsUsable b u = record {
  counters = rw (length-decay_loop b.filter b.nb_nonzero) u.counters;
  hashes = u.hashes;
}

pub length-zeroed : (f : List ℕ) → length {A = ℕ} (map (λ counter. 0) f) ≡ length f
length-zeroed [] = refl
length-zeroed (x ∷ f) = ap suc (length-zeroed f)

pub clear-IsUsable : (b : CountingBloomFilter) → IsUsable b → IsUsable (clear b)
unfolding clear
clear-IsUsable b u = record { counters = rw (length-zeroed b.filter) u.counters; hashes = u.hashes }

module _ {K : Type 0} (hash : K → ℕ) where
  pub estimate_total :
      (b : CountingBloomFilter) (k : K) → IsUsable b → (e : ℕ) × (estimate hash b k ≡ ok e)
  estimate_total b k u =
      let (e, run, _) = counting_add-estimate hash b k u.counters u.hashes in (e, run)

  pub estimate_bound :
      (b : CountingBloomFilter) (k : K) (e : ℕ) → IsUsable b → estimate hash b k ≡ ok e → e < 2 ^ 32
  estimate_bound b k e u run =
      let (is, p) = Positions-of hash b k u.counters u.hashes in
      let least = ok_inj _ e (sym (p.estimated b.filter b.nb_nonzero refl) ∙ run) in
      omega (arith, least, minimum-le b.filter is max_count)

  pub add_total :
      (b : CountingBloomFilter) (k : K)
      → IsUsable b
      → (b' : CountingBloomFilter) × (add hash b k ≡ ok b') × IsUsable b'
  unfolding add
  add_total b k u =
      let (is, p) = Positions-of hash b k u.counters u.hashes in
      let m = minimum b.filter is max_count in
      let inc : ℕ = if m == 0 then 1 else 0 in
      let (f, nz) = bump is m inc b.filter b.nb_nonzero in
      (
        record b { filter = f; nb_nonzero = nz },
        rw p.gathered refl,
        record {
          counters = rw (length-bump is m inc b.filter b.nb_nonzero) u.counters;
          hashes = u.hashes;
        },
      )
