-- ===== src/Filter/BitSet.antt =====
-- `boost::dynamic_bitset`, a library that the sources only call, by what its documentation says.
use cachemere.Common.{
  ℕ, ◌<◌, ◌≡◌, refl, Bool, false, ◌||◌, ◌==◌, ◌+◌, ◌/◌, zero, suc, if◌then◌else◌,
}

pub record BitSet (B : Type 0) : Type 0 where
  pub make : ℕ → B
  pub size : B → ℕ
  pub set : B → ℕ → B
  pub test : B → ℕ → Bool
  pub reset : B → B
  pub count : B → ℕ
  pub num_blocks : B → ℕ

pub record BitSetLaws {B : Type 0} (b : BitSet B) : Type 0 where
  pub size-make : (n : ℕ) → b.size (b.make n) ≡ n
  pub test-make : (n i : ℕ) → b.test (b.make n) i ≡ false
  pub size-set : (x : B) (i : ℕ) → b.size (b.set x i) ≡ b.size x
  pub size-reset : (x : B) → b.size (b.reset x) ≡ b.size x
  pub test-set : (x : B) (i j : ℕ) → i < b.size x → b.test (b.set x i) j ≡ ((i == j) || b.test x j)
  pub test-reset : (x : B) (i : ℕ) → b.test (b.reset x) i ≡ false

-- Bits as a function are an instance.
pub record Bits : Type 0 where
  pub count : ℕ
  pub bits : ℕ → Bool

pub count_below : (ℕ → Bool) → ℕ → ℕ
count_below bits zero = 0
count_below bits (suc n) = if bits n then suc (count_below bits n) else count_below bits n

-- Blocks have eight bits.
abbrev pub function_bits : BitSet Bits
function_bits = record {
  make = λ n. record { count = n; bits = λ i. false };
  size = λ x. x.count;
  set = λ x i. record x { bits = λ j. (i == j) || x.bits j };
  test = λ x. x.bits;
  reset = λ x. record x { bits = λ i. false };
  count = λ x. count_below x.bits x.count;
  num_blocks = λ x. (x.count + 7) / 8;
}

pub function_bits-BitSetLaws : BitSetLaws function_bits
function_bits-BitSetLaws = record {
  size-make = λ n. refl;
  test-make = λ n i. refl;
  size-set = λ x i. refl;
  size-reset = λ x. refl;
  test-set = λ x i j h. refl;
  test-reset = λ x i. refl;
}
