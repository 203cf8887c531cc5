-- ===== src/Item.antt =====
-- include/cachemere/item.h: a cached value with its measured sizes. `size_t` has 64 bits.
use cachemere.Common.{ℕ, ◌+◌, ◌%◌, ◌^◌, ◌<◌, ◌≡◌, arith}

abbrev pub size_mod : ℕ
size_mod = 2 ^ 64

pub record Item {ℓ} (V : Type ℓ) : Type ℓ where
  pub key_size : ℕ
  pub value : V
  pub value_size : ℕ
  pub total_size : ℕ

-- The constructor.
unfoldable pub make_item {ℓ} : {V : Type ℓ} → ℕ → V → ℕ → Item V
make_item key_size value value_size = record {
  key_size = key_size;
  value = value;
  value_size = value_size;
  total_size = (key_size + value_size) % size_mod;
}

-- The sum of the two sizes did not wrap.
abbrev pub IsExact {ℓ} : {V : Type ℓ} → Item V → Type 0
IsExact it = it.total_size ≡ it.key_size + it.value_size

pub make_item-IsExact {ℓ} :
    {V : Type ℓ} (key_size value_size : ℕ) (value : V)
    → key_size + value_size < size_mod
    → IsExact (make_item key_size value value_size)
unfolding make_item
make_item-IsExact key_size value_size value h = omega arith
