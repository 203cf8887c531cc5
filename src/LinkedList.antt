-- ===== src/LinkedList.antt =====
-- `std::list` with its iterators, as the eviction policies use it: a list of nodes, each with an
-- identity, which an iterator holds and which a `splice` keeps.
pub mod Keys
pub mod Index
use mathlib.Core.List.{lookup, reverse-cons, reverse-reverse, reverse-append}
use mathlib.Core.Option
use cachemere.Common.{
  ℕ, suc, ◌≡◌, refl, sym, ◌∙◌, ap, Bool, true, false, none, some, Option, List, [], ◌∷◌, ◌++◌, map,
  reverse, arith, Outcome, ok, fault, undefined_behaviour, ◌==◌, erase_key, ℕ_discrete,
  DistinctKeys, is_some, subst, if_neg, length, ◌+◌, contains, ite, ◌||◌,
}

abbrev pub Nodes : Type 0 → Type 0
Nodes K = List (ℕ × K)

module _ {A : Type 0} where
  -- `l.back()`
  unfoldable pub back : List A → Option A
  back [] = none
  back (x ∷ []) = some x
  back (x ∷ y ∷ l) = back (y ∷ l)

  -- `l.pop_back()`
  unfoldable pub pop_back : List A → List A
  pop_back [] = []
  pop_back (x ∷ []) = []
  pop_back (x ∷ y ∷ l) = x ∷ pop_back (y ∷ l)

  pub back-append : (l : List A) (x : A) → back (l ++ x ∷ []) ≡ some x
  unfolding back
  back-append [] x = refl
  back-append (y ∷ []) x = refl
  back-append (y ∷ z ∷ l) x = back-append (z ∷ l) x

  pub pop_back-append : (l : List A) (x : A) → pop_back (l ++ x ∷ []) ≡ l
  unfolding pop_back
  pop_back-append [] x = refl
  pop_back-append (y ∷ []) x = refl
  pop_back-append (y ∷ z ∷ l) x = ap (◌∷◌ y) (pop_back-append (z ∷ l) x)

  -- The first element of the reverse is the back.
  pub reverse-eq-cons :
      (l : List A) (x : A) (xs : List A)
      → reverse l ≡ x ∷ xs
      → (back l ≡ some x) × (reverse (pop_back l) ≡ xs)
  reverse-eq-cons l x xs h =
      let e : l ≡ reverse xs ++ x ∷ [] =
        sym (reverse-reverse l) ∙ ap reverse h ∙ reverse-cons x xs in
      (rw e (back-append (reverse xs) x), rw (e, pop_back-append) (reverse-reverse xs))

  pub back-none : (l : List A) → back l ≡ none → l ≡ []
  unfolding back
  back-none [] h = refl
  back-none (y ∷ []) h = cc
  back-none (y ∷ z ∷ l) h = absurd (cc (back-none (z ∷ l) h))

  pub length-pop_back : (l : List A) (x : A) → back l ≡ some x → length (pop_back l) + 1 ≡ length l
  unfolding back pop_back
  length-pop_back [] x h = cc
  length-pop_back (y ∷ []) x h = omega arith
  length-pop_back (y ∷ z ∷ l) x h = omega (arith, length-pop_back (z ∷ l) x h)

module _ {K : Type 0} (dec : Discrete K) where
  pub contains-pop_back :
      (j : K) (l : List K) (x : K)
      → back l ≡ some x
      → (contains dec j (pop_back l) || ite (dec j x) true false) ≡ contains dec j l
  unfolding back pop_back
  contains-pop_back j [] x h = cc
  contains-pop_back j (y ∷ []) x h = ground arith
  contains-pop_back j (y ∷ z ∷ l) x h = ground (arith, contains-pop_back j (z ∷ l) x h)

module _ {A B : Type 0} (f : A → B) where
  pub back-map : (l : List A) → back (map f l) ≡ Option.map f (back l)
  unfolding back
  back-map [] = refl
  back-map (x ∷ []) = refl
  back-map (x ∷ y ∷ l) = back-map (y ∷ l)

  pub pop_back-map : (l : List A) → pop_back (map f l) ≡ map f (pop_back l)
  unfolding pop_back
  pop_back-map [] = refl
  pop_back-map (x ∷ []) = refl
  pop_back-map (x ∷ y ∷ l) = ap (◌∷◌ (f x)) (pop_back-map (y ∷ l))

module _ {K : Type 0} where
  -- `it == l.begin()`
  unfoldable pub is_begin : ℕ → Nodes K → Bool
  is_begin it [] = false
  is_begin it (n ∷ l) = it == n.0

  -- `*it`
  abbrev pub deref : ℕ → Nodes K → Option K
  deref = lookup ℕ_discrete

  -- The list without a node.
  abbrev pub erase_node : ℕ → Nodes K → Nodes K
  erase_node it = erase_key ℕ_discrete it

  -- `l.erase(it)`
  unfoldable pub erase_iterator : ℕ → Nodes K → Outcome (Nodes K)
  erase_iterator it l = elim (deref it l) [
    | none ↦ fault undefined_behaviour
    | some k ↦ ok (erase_node it l)
  ]

  -- `to.splice(to.begin(), from, it)`, for two lists: the new `to` and `from`.
  unfoldable pub splice : Nodes K → Nodes K → ℕ → Outcome (Nodes K × Nodes K)
  splice to from it = elim (deref it from) [
    | none ↦ fault undefined_behaviour
    | some k ↦ ok ((it, k) ∷ to, erase_node it from)
  ]

  -- `l.splice(l.begin(), l, it)`
  unfoldable pub splice_self : Nodes K → ℕ → Outcome (Nodes K)
  splice_self l it = elim (deref it l) [
    | none ↦ fault undefined_behaviour
    | some k ↦ ok ((it, k) ∷ erase_node it l)
  ]

  abbrev pub node_keys : Nodes K → List K
  node_keys = map (λ n. n.1)

  back-deref : (l : Nodes K) (it : ℕ) (k : K) → back l ≡ some (it, k) → is_some (deref it l) ≡ true
  unfolding back lookup
  back-deref [] it k h = cc
  back-deref (n ∷ []) it k h = ground arith
  back-deref (n ∷ m ∷ l) it k h = ground (arith, back-deref (m ∷ l) it k h)

  -- The last node can be named by its identity.
  pub pop_back-erase_node :
      (l : Nodes K) (it : ℕ) (k : K)
      → back l ≡ some (it, k)
      → DistinctKeys ℕ_discrete l
      → pop_back l ≡ erase_node it l
  unfolding back pop_back lookup
  pop_back-erase_node [] it k h d = cc
  pop_back-erase_node (n ∷ []) it k h d = ground arith
  pop_back-erase_node (n ∷ m ∷ l) it k h d = elim (ℕ_discrete it n.0) [
    | yes same ↦ absurd (
        cc (
          back-deref (m ∷ l) it k h,
          subst (λ i. is_some (deref i (m ∷ l)) ≡ false) (sym same) d.0,
        ))
    | no other ↦ rw (if_neg _ other) (ap (◌∷◌ n) (pop_back-erase_node (m ∷ l) it k h d.1))
  ]
