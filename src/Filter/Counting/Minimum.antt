-- ===== src/Filter/Counting/Minimum.antt =====
-- The least counter at the positions of a key, and what the second loop of `add` does to it.
use cachemere.Common.{
  ℕ, zero, suc, ◌+◌, ◌%◌, ◌^◌, ◌<◌, ◌≤◌, min, ◌≡◌, refl, ◌∙◌, ap, true, List, [], ◌∷◌, arith, ltb,
  ◌==◌, ◌&&◌, if◌then◌else◌, length, contains, ℕ_discrete, Bool-cases, ◌⊎◌, inl, inr,
}
use cachemere.Filter.Counting.{max_count, get, increment, bump}

-- The least counter at the indices.
unfoldable pub minimum : List ℕ → List ℕ → ℕ → ℕ
minimum filter [] least = least
minimum filter (idx ∷ indices) least = minimum filter indices (min (get filter idx) least)

pub length-increment : (f : List ℕ) (i : ℕ) → length (increment f i) ≡ length f
unfolding increment
length-increment [] i = refl
length-increment (x ∷ xs) zero = refl
length-increment (x ∷ xs) (suc i) = ap suc (length-increment xs i)

get-increment :
    (f : List ℕ) (i j : ℕ)
    → i < length f
    → get f i < max_count
    → get (increment f i) j ≡ (if i == j then get f i + 1 else get f j)
unfolding get increment
get-increment [] i j h small = absurd (omega arith)
get-increment (x ∷ xs) zero zero h small = ground arith
get-increment (x ∷ xs) zero (suc j) h small = ground arith
get-increment (x ∷ xs) (suc i) zero h small = ground arith
get-increment (x ∷ xs) (suc i) (suc j) h small = ground (arith, get-increment xs i j)

-- What the second loop of `add` makes of each counter.
pub bump_lem :
    (is : List ℕ) (m inc : ℕ) (f : List ℕ) (nz : ℕ)
    → ((i : ℕ) → contains ℕ_discrete i is ≡ true → i < length f)
    → m < max_count
    → (length (bump is m inc f nz).0 ≡ length f)
      × ((j : ℕ)
          → get (bump is m inc f nz).0 j
            ≡ (if contains ℕ_discrete j is && (get f j == m) then m + 1 else get f j))
unfolding bump
bump_lem [] m inc f nz below small = (refl, λ j. refl)
bump_lem (i ∷ is) m inc f nz below small =
    let here : i < length f = below i (ground arith) in
    let later : (j : ℕ) → contains ℕ_discrete j is ≡ true → j < length f =
      λ j e. below j (ground (arith, e)) in
    elim (Bool-cases (get f i == m)) [
      | inr above ↦
          let (size, values) = bump_lem is m inc f nz later small in
          rw (above, bump) (size, λ j. values j ∙ ground (arith, above))
      | inl least ↦
          let (size, values) =
            bump_lem is m inc (increment f i) ((nz + inc) % 2 ^ 32)
              (λ j e. rw (length-increment f i) (later j e)) small in
          rw (least, bump)
            (
              size ∙ length-increment f i,
              λ j. values j ∙ ground (arith, get-increment f i j here, least),
            )
    ]

pub minimum-le : (f is : List ℕ) (least : ℕ) → minimum f is least ≤ least
unfolding minimum
minimum-le f [] least = omega arith
minimum-le f (i ∷ is) least = omega (arith, minimum-le f is (min (get f i) least))

pub minimum-le_get :
    (f is : List ℕ) (least i : ℕ) → contains ℕ_discrete i is ≡ true → minimum f is least ≤ get f i
unfolding minimum
minimum-le_get f [] least i e = absurd (ground arith)
minimum-le_get f (j ∷ is) least i e =
    ground
      (arith, minimum-le_get f is (min (get f j) least) i, minimum-le f is (min (get f j) least))

minimum-reached :
    (f is : List ℕ) (least : ℕ)
    → (minimum f is least ≡ least)
      ⊎ ((i : ℕ) × (contains ℕ_discrete i is ≡ true) × (get f i ≡ minimum f is least))
unfolding minimum
minimum-reached f [] least = inl refl
minimum-reached f (i ∷ is) least = elim (minimum-reached f is (min (get f i) least)) [
  | inr (j, at_j, e) ↦ inr (j, ground (arith, at_j), e)
  | inl whole ↦ elim (Bool-cases (ltb (get f i) least)) [
    | inl lower ↦
        let less : get f i < least = ground (arith, lower) in
        inr (i, ground arith, omega (arith, whole, less))
    | inr above ↦
        let more : least ≤ get f i = ground (arith, above) in inl (omega (arith, whole, more))
  ]
]

-- A counter at the indices that is below all others, and below the start, is the minimum.
minimum_unique :
    (f is : List ℕ) (least v i : ℕ)
    → ((j : ℕ) → contains ℕ_discrete j is ≡ true → v ≤ get f j)
    → v ≤ least
    → contains ℕ_discrete i is ≡ true
    → get f i ≡ v
    → minimum f is least ≡ v
minimum_unique f is least v i lower start there e = elim (minimum-reached f is least) [
  | inl whole ↦ omega (arith, whole, minimum-le_get f is least i there)
  | inr (j, at_j, reached) ↦ omega (arith, reached, lower j at_j, minimum-le_get f is least i there)
]

pub minimum_mono :
    (f g is : List ℕ) (a b : ℕ)
    → ((j : ℕ) → get f j ≤ get g j)
    → a ≤ b
    → minimum f is a ≤ minimum g is b
unfolding minimum
minimum_mono f g [] a b h le = le
minimum_mono f g (i ∷ is) a b h le =
    minimum_mono f g is (min (get f i) a) (min (get g i) b) h (omega (arith, h i))

-- After the second loop of `add` the minimum is one higher, and no counter is lower.
pub minimum-bump :
    (f is : List ℕ) (inc nz : ℕ)
    → ((i : ℕ) → contains ℕ_discrete i is ≡ true → i < length f)
    → minimum f is max_count < max_count
    → (minimum (bump is (minimum f is max_count) inc f nz).0 is max_count
        ≡ minimum f is max_count + 1)
      × (length (bump is (minimum f is max_count) inc f nz).0 ≡ length f)
      × ((j : ℕ) → get f j ≤ get (bump is (minimum f is max_count) inc f nz).0 j)
minimum-bump f is inc nz below small =
    let m = minimum f is max_count in
    let (size, values) = bump_lem is m inc f nz below small in
    elim (minimum-reached f is max_count) [
      | inl whole ↦ absurd (omega (arith, whole, small))
      | inr (i, at_i, reached) ↦ (
        minimum_unique (bump is m inc f nz).0 is max_count (m + 1) i
            (λ j e. ground (arith, values j, e, minimum-le_get f is max_count j e))
            (omega (arith, small)) at_i (ground (arith, values i, at_i, reached)),
        size,
        λ j. ground (arith, values j),
      )
    ]
