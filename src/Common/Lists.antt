-- ===== src/Common/Lists.antt =====
-- Lists measured by native numbers; lists of keys, and association lists, over a decidable equality.
use Prim.Native.Nat.{ℕ, suc, ◌+◌, ◌≤◌}
use mathlib.Core.Path.{◌≡◌, refl}
use mathlib.Core.Logic.{ite}
use mathlib.Core.Bool.{Bool, true, false, ◌||◌}
use mathlib.Core.List.{
  List, [], ◌∷◌, ◌++◌, reverse, reverse-cons, append-nil, erase, erase_p, lookup,
}
use mathlib.Core.Option.{none}
use native.Mathlib.Omega.{arith}
use cachemere.Common.Bools.{is_some, if◌then◌else◌}

module _ {ℓ} {A : Type ℓ} where
  abbrev pub length : List A → ℕ
  length [] = 0
  length (x ∷ xs) = suc (length xs)

  pub length-append : (xs ys : List A) → length (xs ++ ys) ≡ length xs + length ys
  length-append [] ys = omega arith
  length-append (x ∷ xs) ys = omega (arith, length-append xs ys)

-- `!c.empty()`
abbrev pub is_nonempty {ℓ} : {A : Type ℓ} → List A → Bool
is_nonempty [] = false
is_nonempty (x ∷ xs) = true

module _ {ℓ} {A : Type ℓ} where
  pub length-reverse : (xs : List A) → length (reverse xs) ≡ length xs
  length-reverse [] = refl
  length-reverse (x ∷ xs) =
      rw reverse-cons (omega (arith, length-append (reverse xs) (x ∷ []), length-reverse xs))

-- The sum of a measure over a list.
abbrev pub total {ℓ} : {A : Type ℓ} → (A → ℕ) → List A → ℕ
total w [] = 0
total w (x ∷ xs) = w x + total w xs

-- A predicate of all elements.
module _ {A : Type 0} where
  abbrev pub All : (A → Type 0) → List A → Type 0
  All P [] = Unit
  All P (x ∷ xs) = P x × All P xs

  pub All-map : (P Q : A → Type 0) → ((x : A) → P x → Q x) → (xs : List A) → All P xs → All Q xs
  All-map P Q f [] h = tt
  All-map P Q f (x ∷ xs) h = (f x h.0, All-map P Q f xs h.1)

  pub All-both : (P Q : A → Type 0) (xs : List A) → All P xs → All Q xs → All (λ x. P x × Q x) xs
  All-both P Q [] h k = tt
  All-both P Q (x ∷ xs) h k = ((h.0, k.0), All-both P Q xs h.1 k.1)

  pub All-left : (P : A → Type 0) (xs ys : List A) → All P (xs ++ ys) → All P xs
  All-left P [] ys h = tt
  All-left P (x ∷ xs) ys h = (h.0, All-left P xs ys h.1)

  pub All-snoc : (P : A → Type 0) (xs : List A) (x : A) → All P xs → P x → All P (xs ++ x ∷ [])
  All-snoc P [] x h p = (p, tt)
  All-snoc P (y ∷ xs) x h p = (h.0, All-snoc P xs x h.1 p)

  pub All-last : (P : A → Type 0) (xs : List A) (x : A) → All P (xs ++ x ∷ []) → P x
  All-last P [] x h = h.0
  All-last P (y ∷ xs) x h = All-last P xs x h.1

module _ {K : Type 0} (dec : Discrete K) where
  abbrev pub contains : K → List K → Bool
  contains k [] = false
  contains k (j ∷ js) = ite (dec k j) true (contains k js)

  -- No key stands twice.
  abbrev pub Distinct : List K → Type 0
  Distinct [] = Unit
  Distinct (j ∷ js) = (contains j js ≡ false) × Distinct js

  pub contains-append :
      (k : K) (xs ys : List K) → contains k (xs ++ ys) ≡ (contains k xs || contains k ys)
  contains-append k [] ys = refl
  contains-append k (x ∷ xs) ys = ground (arith, contains-append k xs ys)

  pub contains-erase :
      (k j : K) (xs : List K)
      → Distinct xs
      → contains k (erase dec xs j) ≡ ite (dec j k) false (contains k xs)
  contains-erase k j [] d = ground arith
  contains-erase k j (x ∷ xs) d = ground (arith, contains-erase k j xs d.1)

  pub erase-Distinct : (j : K) (xs : List K) → Distinct xs → Distinct (erase dec xs j)
  erase-Distinct j [] d = tt
  erase-Distinct j (x ∷ xs) d = ground (arith, erase-Distinct j xs d.1, contains-erase x j xs d.1)

module _ {K : Type 0} (dec : Discrete K) where
  pub contains-reverse : (k : K) (xs : List K) → contains dec k (reverse xs) ≡ contains dec k xs
  contains-reverse k [] = refl
  contains-reverse k (x ∷ xs) =
      rw reverse-cons
        (ground (arith, contains-append dec k (reverse xs) (x ∷ []), contains-reverse k xs))

  pub append-Distinct :
      (xs ys : List K)
      → Distinct dec xs
      → Distinct dec ys
      → ((k : K) → contains dec k xs ≡ true → contains dec k ys ≡ false)
      → Distinct dec (xs ++ ys)
  append-Distinct [] ys d e apart = e
  append-Distinct (x ∷ xs) ys d e apart = (
    ground (arith, contains-append dec x xs ys, apart x),
    append-Distinct xs ys d.1 e (λ k h. ground (arith, apart k)),
  )

module _ {K : Type 0} (dec : Discrete K) where
  pub reverse-Distinct : (xs : List K) → Distinct dec xs → Distinct dec (reverse xs)
  reverse-Distinct [] d = tt
  reverse-Distinct (x ∷ xs) d = rw reverse-cons (
      append-Distinct dec (reverse xs) (x ∷ []) (reverse-Distinct xs d.1) (refl, tt)
        (λ k h. ground (arith, contains-reverse dec k xs)))

module _ {K : Type 0} (dec : Discrete K) where
  pub erase_absent : (k : K) (xs : List K) → contains dec k xs ≡ false → erase dec xs k ≡ xs
  erase_absent k [] e = refl
  erase_absent k (x ∷ xs) e = ground (arith, erase_absent k xs)

  pub length-erase-le : (k : K) (xs : List K) → length (erase dec xs k) ≤ length xs
  length-erase-le k [] = omega arith
  length-erase-le k (x ∷ xs) = ground (arith, length-erase-le k xs)

  pub length-erase :
      (k : K) (xs : List K) → contains dec k xs ≡ true → length (erase dec xs k) + 1 ≡ length xs
  length-erase k [] h = cc
  length-erase k (x ∷ xs) h = ground (arith, length-erase k xs)

  -- A key is erased from the part that has it.
  pub erase-append :
      (k : K) (xs ys : List K)
      → erase dec (xs ++ ys) k
        ≡ (if contains dec k xs then erase dec xs k ++ ys else xs ++ erase dec ys k)
  erase-append k [] ys = refl
  erase-append k (x ∷ xs) ys = ground (arith, erase-append k xs ys)

module _ {K : Type 0} (dec : Discrete K) where
  pub erase-reverse :
      (k : K) (xs : List K) → Distinct dec xs → erase dec (reverse xs) k ≡ reverse (erase dec xs k)
  erase-reverse k [] d = refl
  erase-reverse k (x ∷ xs) d = rw (reverse-cons x xs) (
      ground (
        arith,
        erase-append dec k (reverse xs) (x ∷ []),
        contains-reverse dec k xs,
        erase-reverse k xs d.1,
        reverse-cons x (erase dec xs k),
        erase_absent dec k xs,
        append-nil (reverse xs),
        d.0,
      ))

module _ {K A : Type 0} (dec : Discrete K) where
  -- The first entry with the key, taken out.
  abbrev pub erase_key : K → List (K × A) → List (K × A)
  erase_key k = erase_p (λ e. dec k e.0)

  -- No key has two entries.
  abbrev pub DistinctKeys : List (K × A) → Type 0
  DistinctKeys [] = Unit
  DistinctKeys (e ∷ l) = (is_some (lookup dec e.0 l) ≡ false) × DistinctKeys l

  pub lookup-erase_key :
      (k j : K) (l : List (K × A))
      → DistinctKeys l
      → lookup dec j (erase_key k l) ≡ ite (dec k j) none (lookup dec j l)
  unfolding lookup
  lookup-erase_key k j [] d = ground arith
  lookup-erase_key k j (e ∷ l) d = ground (arith, lookup-erase_key k j l d.1)

  pub erase_key-DistinctKeys :
      (k : K) (l : List (K × A)) → DistinctKeys l → DistinctKeys (erase_key k l)
  unfolding lookup
  erase_key-DistinctKeys k [] d = tt
  erase_key-DistinctKeys k (e ∷ l) d =
      ground (arith, erase_key-DistinctKeys k l d.1, lookup-erase_key k e.0 l d.1)
