-- ===== src/Filter/Counting/Nonzero.antt =====
-- The counters of a counting filter that are not 0, and what the loops do to their number.
use cachemere.Common.{
  ℕ, zero, suc, ◌+◌, ◌-◌, ◌%◌, ◌/◌, ◌^◌, ◌<◌, ◌≤◌, ◌≡◌, refl, sym, ◌∙◌, ap, inl, inr, true, List,
  [], ◌∷◌, arith, length, Bool-cases, if◌then◌else◌, ◌==◌, contains, ℕ_discrete, map,
}
use cachemere.Filter.Counting.{get, increment, bump, decay_loop, max_count}
use cachemere.Filter.Counting.Minimum.{length-increment}

-- How many counters are not 0.
unfoldable pub nonzeros : List ℕ → ℕ
nonzeros [] = 0
nonzeros (x ∷ xs) = (if x == 0 then 0 else 1) + nonzeros xs

pub nonzeros-le_length : (f : List ℕ) → nonzeros f ≤ length f
unfolding nonzeros
nonzeros-le_length [] = omega arith
nonzeros-le_length (x ∷ f) = ground (arith, nonzeros-le_length f)

-- Every counter has 32 bits.
unfoldable pub AllFit : List ℕ → Type 0
AllFit [] = Unit
AllFit (x ∷ xs) = (x ≤ max_count) × AllFit xs

nonzeros-increment :
    (f : List ℕ) (i : ℕ)
    → i < length f
    → get f i < max_count
    → nonzeros (increment f i) ≡ nonzeros f + (if get f i == 0 then 1 else 0)
unfolding nonzeros increment get
nonzeros-increment [] i h small = absurd (omega arith)
nonzeros-increment (x ∷ f) zero h small = ground arith
nonzeros-increment (x ∷ f) (suc i) h small = ground (arith, nonzeros-increment f i)

increment-AllFit : (f : List ℕ) (i : ℕ) → AllFit f → AllFit (increment f i)
unfolding AllFit increment
increment-AllFit [] i fits = tt
increment-AllFit (x ∷ f) zero fits = (omega arith, fits.1)
increment-AllFit (x ∷ f) (suc i) fits = (fits.0, increment-AllFit f i fits.1)

-- `m_nb_nonzero` does not wrap.
counted :
    (f : List ℕ) (i m : ℕ)
    → i < length f
    → m < max_count
    → get f i ≡ m
    → length f < 2 ^ 32
    → (nonzeros f + (if m == 0 then 1 else 0)) % 2 ^ 32 ≡ nonzeros (increment f i)
counted f i m here small same short =
    let raised : nonzeros (increment f i) ≡ nonzeros f + (if m == 0 then 1 else 0) =
      rw (sym same) (nonzeros-increment f i here (rw same small)) in
    let bound = nonzeros-le_length (increment f i) in
    omega (arith, raised, bound, length-increment f i, short)

pub bump-nonzeros :
    (is : List ℕ) (m : ℕ) (f : List ℕ) (nb_nonzero : ℕ)
    → ((i : ℕ) → contains ℕ_discrete i is ≡ true → i < length f)
    → m < max_count
    → length f < 2 ^ 32
    → AllFit f
    → nb_nonzero ≡ nonzeros f
    → ((bump is m (if m == 0 then 1 else 0) f nb_nonzero).1
        ≡ nonzeros (bump is m (if m == 0 then 1 else 0) f nb_nonzero).0)
      × AllFit (bump is m (if m == 0 then 1 else 0) f nb_nonzero).0
unfolding bump
bump-nonzeros [] m f nz below small short fits e = (e, fits)
bump-nonzeros (i ∷ is) m f nz below small short fits e =
    let here : i < length f = below i (ground arith) in
    let later : (j : ℕ) → contains ℕ_discrete j is ≡ true → j < length f =
      λ j h. below j (ground (arith, h)) in
    elim (Bool-cases (get f i == m)) [
      | inr above ↦ rw (above, bump) (bump-nonzeros is m f nz later small short fits e)
      | inl least ↦
          let same : get f i ≡ m = ground (arith, least) in
          let f' = increment f i in
          let nz' : ℕ = (nz + (if m == 0 then 1 else 0)) % 2 ^ 32 in
          let count : nz' ≡ nonzeros f' =
            ap (λ n. (n + (if m == 0 then 1 else 0)) % 2 ^ 32) e
            ∙ counted f i m here small same short in
          rw (least, bump)
            (bump-nonzeros is m f' nz' (λ j h. rw (length-increment f i) (later j h)) small
              (rw (length-increment f i) short) (increment-AllFit f i fits) count)
    ]

abbrev pub halves : List ℕ → List ℕ
halves = map (λ counter. counter / 2)

-- `nb_nonzero` also counts `n` counters that the loop has left behind.
pub decay_loop_lem :
    (f : List ℕ) (nb_nonzero n : ℕ)
    → nb_nonzero ≡ n + nonzeros f
    → nb_nonzero < 2 ^ 32
    → (decay_loop f nb_nonzero).1 ≡ n + nonzeros (halves f)
unfolding decay_loop nonzeros
decay_loop_lem [] nz n e h = e
decay_loop_lem (x ∷ f) nz n e h =
    let nz' : ℕ = if x == 1 then (nz + 2 ^ 32 - 1) % 2 ^ 32 else nz in
    let n' : ℕ = n + (if x / 2 == 0 then 0 else 1) in
    let split : nz' ≡ n' + nonzeros f = ground (arith, e, h) in
    let rest = decay_loop_lem f nz' n' split (ground (arith, e, h)) in omega (arith, rest)

pub halves-AllFit : (f : List ℕ) → AllFit f → AllFit (halves f)
unfolding AllFit
halves-AllFit [] fits = tt
halves-AllFit (x ∷ f) fits = (omega (arith, fits.0), halves-AllFit f fits.1)

pub zeroed-AllFit :
    (f : List ℕ) → AllFit (map (λ counter. 0) f) × (nonzeros (map (λ counter. 0) f) ≡ 0)
unfolding AllFit nonzeros
zeroed-AllFit [] = (tt, refl)
zeroed-AllFit (x ∷ f) =
    let (fits, none_left) = zeroed-AllFit f in ((omega arith, fits), omega (arith, none_left))

pub decay_loop-halves : (f : List ℕ) (nb_nonzero : ℕ) → (decay_loop f nb_nonzero).0 ≡ halves f
unfolding decay_loop
decay_loop-halves [] nz = refl
decay_loop-halves (x ∷ f) nz = ap (◌∷◌ (x / 2)) (decay_loop-halves f _)

pub bump-AllFit :
    (is : List ℕ) (m inc : ℕ) (f : List ℕ) (nb_nonzero : ℕ)
    → AllFit f
    → AllFit (bump is m inc f nb_nonzero).0
unfolding bump
bump-AllFit [] m inc f nz fits = fits
bump-AllFit (i ∷ is) m inc f nz fits = elim (Bool-cases (get f i == m)) [
  | inr above ↦ rw (above, bump) (bump-AllFit is m inc f nz fits)
  | inl least ↦
      rw (least, bump)
        (bump-AllFit is m inc (increment f i) ((nz + inc) % 2 ^ 32) (increment-AllFit f i fits))
]
