-- ===== src/Hash.antt =====
-- include/cachemere/hash.h and detail/transparent_eq.h: call operators with an overload for each type
-- of argument. The overloads are a sum: the type of an argument selects the summand.
use cachemere.Common.{ℕ, Bool, ◌⊎◌, inl, inr}

module _ {K : Type 0} (key_hash : K → ℕ) where
  -- The base case of `MultiHash`.
  pub single_hash : K → ℕ
  single_hash key = key_hash key

  -- The recursive case: the first pair, or `MultiHash<Tail...>`.
  module _ {T : Type 0} (tail_hash : T → ℕ) where
    unfoldable pub multi_hash : K ⊎ T → ℕ
    unfolding single_hash
    multi_hash (inl key) = single_hash key
    multi_hash (inr tail) = tail_hash tail

-- The arguments that `TransparentEq<Key>` takes, with a view of keys.
pub data Operands (K Q : Type 0) : Type 0 where
  keys : K → K → Operands K Q
  key_view : K → Q → Operands K Q
  view_key : Q → K → Operands K Q

-- `key_eq` and `view_eq` are the `==` of keys, and of a view with a key.
unfoldable pub transparent_eq :
    {K Q : Type 0} → (K → K → Bool) → (Q → K → Bool) → Operands K Q → Bool
transparent_eq key_eq view_eq (keys a b) = key_eq a b
transparent_eq key_eq view_eq (key_view a b) = view_eq b a
transparent_eq key_eq view_eq (view_key a b) = view_eq a b
