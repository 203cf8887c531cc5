-- ===== src/Filter/Bloom/Membership.antt =====
-- The members of a Bloom filter.
use cachemere.Common.{
  ℕ, zero, suc, ◌<◌, ◌≡◌, refl, sym, ◌∙◌, ◌⊎◌, inl, inr, Bool, true, false, arith, ok, Bool-cases,
  ap, if◌then◌else◌,
}
use cachemere.Filter.HashMixer.{HashMixer, make_mixer, draw, draw_lem}
use cachemere.Filter.BitSet.{BitSet, BitSetLaws}
use cachemere.Filter.Bloom.{BloomFilter, add_loop, contains_loop, add, maybe_contains, clear}

module _ {B : Type 0} {bitset : BitSet B} (laws : BitSetLaws bitset) where
  open bitset use {make, size, set, test, reset}

  -- No bit is lost.
  pub record IsGrown (x y : B) : Type 0 where
    pub size_same : size y ≡ size x
    pub bits : (i : ℕ) → test x i ≡ true → test y i ≡ true

  set-IsGrown : (x : B) (i : ℕ) → i < size x → IsGrown x (set x i)
  set-IsGrown x i h = record {
    size_same = laws.size-set x i;
    bits = λ j e. ground (arith, laws.test-set x i j h);
  }

  IsGrown-trans : (x y z : B) → IsGrown x y → IsGrown y z → IsGrown x z
  IsGrown-trans x y z p q = record {
    size_same = q.size_same ∙ p.size_same;
    bits = λ i e. q.bits i (p.bits i e);
  }

  add_loop_lem :
      (n : ℕ) (mixer : HashMixer) (x : B)
      → 0 < size x
      → mixer.value_range ≡ size x
      → (y : B) × (add_loop bitset n mixer x ≡ ok y)
        × IsGrown x y
        × (contains_loop bitset n mixer y ≡ ok true)
  unfolding add_loop contains_loop
  add_loop_lem zero mixer x h r = (x, refl, record { size_same = refl; bits = λ i e. e }, refl)
  add_loop_lem (suc n) mixer x h r =
      let (i, mixer', drawn, below, range) = draw_lem mixer (rw r h) in
      let inside : i < size x = omega (arith, r) in
      let larger : size (set x i) ≡ size x = laws.size-set x i in
      let (y, run, grown, found) =
        add_loop_lem n mixer' (set x i) (omega (arith, larger)) (range ∙ r ∙ sym larger) in
      let whole = IsGrown-trans x (set x i) y (set-IsGrown x i inside) grown in
      let first : test x i ≡ true → test y i ≡ true = whole.bits i in
      let in_y : test y i ≡ true = grown.bits i (ground (arith, laws.test-set x i i inside)) in
      (
        y,
        rw (drawn, add_loop) (ground (arith, run)),
        whole,
        rw (drawn, contains_loop) (ground (arith, in_y, found, whole.size_same)),
      )

  contains_loop_total :
      (n : ℕ) (mixer : HashMixer) (x : B)
      → 0 < size x
      → mixer.value_range ≡ size x
      → (b : Bool) × (contains_loop bitset n mixer x ≡ ok b)
  unfolding contains_loop
  contains_loop_total zero mixer x h r = (true, refl)
  contains_loop_total (suc n) mixer x h r =
      let (i, mixer', drawn, below, range) = draw_lem mixer (rw r h) in
      let (b, run) = contains_loop_total n mixer' x h (range ∙ r) in
      elim (Bool-cases (test x i)) [
        | inl set_there ↦ (b, rw (drawn, contains_loop) (ground (arith, set_there, run)))
        | inr unset ↦ (false, rw (drawn, contains_loop) (ground (arith, unset)))
      ]

  contains_step :
      (n : ℕ) (mixer mixer' : HashMixer) (x : B) (i : ℕ)
      → draw mixer ≡ ok (i, mixer')
      → i < size x
      → contains_loop bitset (suc n) mixer x
        ≡ (if test x i then contains_loop bitset n mixer' x else ok false)
  unfolding contains_loop
  contains_step n mixer mixer' x i drawn inside = elim (Bool-cases (test x i)) [
    | inl there ↦ rw (drawn, contains_loop) (ground (arith, there))
    | inr unset ↦ rw (drawn, contains_loop) (ground (arith, unset))
  ]

  contains_loop-IsGrown :
      (n : ℕ) (mixer : HashMixer) (x y : B)
      → 0 < size x
      → mixer.value_range ≡ size x
      → IsGrown x y
      → contains_loop bitset n mixer x ≡ ok true
      → contains_loop bitset n mixer y ≡ ok true
  unfolding contains_loop
  contains_loop-IsGrown zero mixer x y h r g e = refl
  contains_loop-IsGrown (suc n) mixer x y h r g e =
      let (i, mixer', drawn, below, range) = draw_lem mixer (rw r h) in
      let in_x : i < size x = omega (arith, r) in
      let in_y : i < size y = omega (arith, r, g.size_same) in
      let step_x = sym (contains_step n mixer mixer' x i drawn in_x) ∙ e in
      let step_y = contains_step n mixer mixer' y i drawn in_y in
      elim (Bool-cases (test x i)) [
        | inr unset ↦ absurd (ground (arith, step_x, unset))
        | inl there ↦
            let rest : contains_loop bitset n mixer' x ≡ ok true = ground (arith, step_x, there) in
            step_y ∙ rw (g.bits i there) (contains_loop-IsGrown n mixer' x y h (range ∙ r) g rest)
      ]

  vacant_contains :
      (n : ℕ) (mixer : HashMixer) (x : B)
      → 0 < size x
      → mixer.value_range ≡ size x
      → 0 < n
      → ((i : ℕ) → test x i ≡ false)
      → contains_loop bitset n mixer x ≡ ok false
  vacant_contains zero mixer x h r hashes unset = absurd (omega arith)
  vacant_contains (suc n) mixer x h r hashes unset =
      let (i, mixer', drawn, below, range) = draw_lem mixer (rw r h) in
      contains_step n mixer mixer' x i drawn (omega (arith, r)) ∙ rw (unset i) refl

  module _ {K : Type 0} (hash : K → ℕ) where
    -- `BloomFilter` has no false negatives: `add` to a filter with at least one bit fails no
    -- assertion, afterwards `maybe_contains` answers `true` for the key, and it does so for any key
    -- for which it did not answer `false` before.
    pub bloom_add-maybe_contains :
        (b : BloomFilter B) (k : K)
        → 0 < size b.filter
        → (b' : BloomFilter B) × (add bitset hash b k ≡ ok b')
          × (maybe_contains bitset hash b' k ≡ ok true)
          × ((j : K)
              → (maybe_contains bitset hash b j ≡ ok false)
                ⊎ (maybe_contains bitset hash b' j ≡ ok true))
    unfolding add maybe_contains make_mixer
    bloom_add-maybe_contains b k h =
        let (y, run, grown, found) =
          add_loop_lem b.nb_hashes (make_mixer hash k (size b.filter)) b.filter h refl in
        (record b { filter = y }, rw run refl, rw grown.size_same found, λ j. kept j y grown)
      where
        kept :
            (j : K) (y : B)
            → IsGrown b.filter y
            → (maybe_contains bitset hash b j ≡ ok false)
              ⊎ (maybe_contains bitset hash (record b { filter = y }) j ≡ ok true)
        kept j y grown =
            let mixer = make_mixer hash j (size b.filter) in
            let (found, run) = contains_loop_total b.nb_hashes mixer b.filter h refl in
            elim (Bool-cases found) [
              | inr no_hit ↦ inl (rw (run, no_hit))
              | inl hit ↦ inr (
                  rw grown.size_same (
                    contains_loop-IsGrown b.nb_hashes mixer b.filter y h refl grown
                      (run ∙ ap ok hit)))
            ]

    -- After `clear`, a `BloomFilter` with at least one bit and one hash contains no key, and asking
    -- it fails no assertion.
    pub bloom_clear-maybe_contains :
        (b : BloomFilter B) (k : K)
        → 0 < size b.filter
        → 0 < b.nb_hashes
        → maybe_contains bitset hash (clear bitset b) k ≡ ok false
    unfolding clear maybe_contains make_mixer
    bloom_clear-maybe_contains b k h hashes =
        vacant_contains b.nb_hashes (make_mixer hash k (size (reset b.filter))) (reset b.filter)
          (rw (laws.size-reset b.filter) h) refl hashes (laws.test-reset b.filter)

    pub vacant-maybe_contains :
        (b : BloomFilter B) (k : K)
        → 0 < size b.filter
        → 0 < b.nb_hashes
        → ((i : ℕ) → test b.filter i ≡ false)
        → maybe_contains bitset hash b k ≡ ok false
    unfolding maybe_contains make_mixer
    vacant-maybe_contains b k h hashes unset =
        vacant_contains b.nb_hashes (make_mixer hash k (size b.filter)) b.filter h refl hashes unset

    pub bloom_add_total :
        (b : BloomFilter B) (k : K)
        → 0 < size b.filter
        → (b' : BloomFilter B) × (add bitset hash b k ≡ ok b') × (0 < size b'.filter)
    unfolding add make_mixer
    bloom_add_total b k h =
        let (y, run, grown, found) =
          add_loop_lem b.nb_hashes (make_mixer hash k (size b.filter)) b.filter h refl in
        (record b { filter = y }, rw run refl, rw grown.size_same h)

    pub maybe_contains_total :
        (b : BloomFilter B) (k : K)
        → 0 < size b.filter
        → (found : Bool) × (maybe_contains bitset hash b k ≡ ok found)
    unfolding maybe_contains make_mixer
    maybe_contains_total b k h =
        contains_loop_total b.nb_hashes (make_mixer hash k (size b.filter)) b.filter h refl

  pub clear-size : (b : BloomFilter B) → size (clear bitset b).filter ≡ size b.filter
  unfolding clear
  clear-size b = laws.size-reset b.filter
