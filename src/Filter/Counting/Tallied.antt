-- ===== src/Filter/Counting/Tallied.antt =====
-- `m_nb_nonzero` of a counting filter through its operations.
use cachemere.Common.{
  ℕ, ◌<◌, ◌^◌, ◌≡◌, refl, sym, ◌∙◌, ap, arith, ok, ok_inj, length, if◌then◌else◌, ◌==◌, subst,
}
use cachemere.Double.{Double}
use cachemere.Filter.Counting.{
  CountingBloomFilter, bump, add, decay, clear, estimate, max_count, saturation,
}
use cachemere.Filter.Counting.Minimum.{minimum}
use cachemere.Filter.Counting.Estimate.{Positions-of}
use cachemere.Filter.Counting.Totals.{
  IsUsable, clear-IsUsable, decay-IsUsable, length-bump, length-decay_loop, length-zeroed,
}
use cachemere.Filter.Counting.Nonzero.{
  nonzeros, nonzeros-le_length, AllFit, bump-AllFit, bump-nonzeros, decay_loop_lem,
  decay_loop-halves, halves-AllFit, zeroed-AllFit,
}

-- The counters have 32 bits, there are fewer than 2^32 of them, and `m_nb_nonzero` is the number of
-- those that are not 0.
pub record IsTallied (b : CountingBloomFilter) : Type 0 where
  pub usable : IsUsable b
  pub short : length b.filter < 2 ^ 32
  pub fits : AllFit b.filter
  pub tally : b.nb_nonzero ≡ nonzeros b.filter

pub clear-IsTallied : (b : CountingBloomFilter) → IsTallied b → IsTallied (clear b)
unfolding clear
clear-IsTallied b v =
    let (fits, none_left) = zeroed-AllFit b.filter in
    record {
      usable = clear-IsUsable b v.usable;
      short = rw (length-zeroed b.filter) v.short;
      fits = fits;
      tally = sym none_left;
    }

pub decay-IsTallied : (b : CountingBloomFilter) → IsTallied b → IsTallied (decay b)
unfolding decay
decay-IsTallied b v =
    let below = nonzeros-le_length b.filter in
    let halved = decay_loop-halves b.filter b.nb_nonzero in
    record {
      usable = decay-IsUsable b v.usable;
      short = rw (length-decay_loop b.filter b.nb_nonzero) v.short;
      fits = rw halved (halves-AllFit b.filter v.fits);
      tally =
          omega (
            arith,
            decay_loop_lem b.filter b.nb_nonzero 0 (omega (arith, v.tally))
                (omega (arith, v.tally, below, v.short)),
          )
          ∙ ap nonzeros (sym halved);
    }

module _ {K : Type 0} (hash : K → ℕ) where
  pub add-IsTallied :
      (b b' : CountingBloomFilter) (k : K) (e : ℕ)
      → IsTallied b
      → estimate hash b k ≡ ok e
      → e < max_count
      → add hash b k ≡ ok b'
      → IsTallied b'
  unfolding add
  add-IsTallied b b' k e v estimated small run =
      let (is, p) = Positions-of hash b k v.usable.counters v.usable.hashes in
      let m = minimum b.filter is max_count in
      let least : m ≡ e = ok_inj m e (sym (p.estimated b.filter b.nb_nonzero refl) ∙ estimated) in
      let (tally, fits) =
        bump-nonzeros is m b.filter b.nb_nonzero p.inside (rw least small) v.short v.fits v.tally in
      let inc : ℕ = if m == 0 then 1 else 0 in
      let c : CountingBloomFilter = record b {
        filter = (bump is m inc b.filter b.nb_nonzero).0;
        nb_nonzero = (bump is m inc b.filter b.nb_nonzero).1;
      } in
      let ran : add hash b k ≡ ok c = rw p.gathered refl in
      subst IsTallied (ok_inj c b' (sym ran ∙ run)) (record {
        usable = record {
          counters = rw (length-bump is m inc b.filter b.nb_nonzero) v.usable.counters;
          hashes = v.usable.hashes;
        };
        short = rw (length-bump is m inc b.filter b.nb_nonzero) v.short;
        fits = fits;
        tally = tally;
      })

  -- One operation. An addition is of a key whose estimate is below the greatest number of 32 bits.
  pub data Step (b b' : CountingBloomFilter) : Type 0 where
    adds :
        (k : K) (e : ℕ)
        → estimate hash b k ≡ ok e
        → e < max_count
        → add hash b k ≡ ok b'
        → Step b b'
    clears : b' ≡ clear b → Step b b'
    decays : b' ≡ decay b → Step b b'

  pub data Reach (b : CountingBloomFilter) : CountingBloomFilter → Type 0 where
    start : Reach b b
    next : {c c' : CountingBloomFilter} → Reach b c → Step c c' → Reach b c'

  Step-IsTallied : (b b' : CountingBloomFilter) → IsTallied b → Step b b' → IsTallied b'
  Step-IsTallied b b' v (adds k e estimated small run) =
      add-IsTallied b b' k e v estimated small run
  Step-IsTallied b b' v (clears e) = subst IsTallied (sym e) (clear-IsTallied b v)
  Step-IsTallied b b' v (decays e) = subst IsTallied (sym e) (decay-IsTallied b v)

  Reach-IsTallied :
      (b : CountingBloomFilter) {c : CountingBloomFilter} → IsTallied b → Reach b c → IsTallied c
  Reach-IsTallied b v start = v
  Reach-IsTallied b v (next {c} {c'} reach step) =
      Step-IsTallied c c' (Reach-IsTallied b v reach) step

  -- However a `CountingBloomFilter` gets on by `add`, of keys whose estimate is below the greatest
  -- number of 32 bits, `clear` and `decay`, from a state of a positive size with fewer than 2^32
  -- counters of 32 bits, `m_nb_nonzero` stays the number of counters that are not 0, and
  -- `saturation` fails no assertion and divides that number by the number of counters.
  pub reach-saturation :
      {W : Type 0} (d : Double W) (b : CountingBloomFilter) {c : CountingBloomFilter}
      → IsTallied b
      → Reach b c
      → (c.nb_nonzero ≡ nonzeros c.filter)
        × (saturation d c ≡ ok (d.div (d.of_u64 (nonzeros c.filter)) (d.of_u64 (length c.filter))))
  unfolding saturation
  reach-saturation d b {c} v reach =
      let t = Reach-IsTallied b v reach in
      (t.tally, rw (sym t.tally) (ground (arith, t.usable.counters)))

module _ {K : Type 0} (hash : K → ℕ) where
  pub add_kept :
      (b b' : CountingBloomFilter) (k : K)
      → IsUsable b
      → AllFit b.filter
      → add hash b k ≡ ok b'
      → AllFit b'.filter × (b'.cardinality ≡ b.cardinality)
  unfolding add
  add_kept b b' k u fits run =
      let (is, p) = Positions-of hash b k u.counters u.hashes in
      let m = minimum b.filter is max_count in
      let inc : ℕ = if m == 0 then 1 else 0 in
      let c : CountingBloomFilter = record b {
        filter = (bump is m inc b.filter b.nb_nonzero).0;
        nb_nonzero = (bump is m inc b.filter b.nb_nonzero).1;
      } in
      let ran : add hash b k ≡ ok c = rw p.gathered refl in
      subst (λ x. AllFit x.filter × (x.cardinality ≡ b.cardinality)) (ok_inj c b' (sym ran ∙ run))
        (bump-AllFit is m inc b.filter b.nb_nonzero fits, refl)
