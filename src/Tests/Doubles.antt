-- ===== src/Tests/Doubles.antt =====
-- Thousandths without a sign as an instance of `Double`, with `log` and `pow` at the arguments that
-- the code gives them.
use cachemere.Common.{min, false, ℕ, ◌+◌, ◌*◌, ◌/◌, ◌<◌, ◌^◌, ltb, leb, ◌==◌, arith, if◌then◌else◌}
use cachemere.Double.{Double, IsOrdered, IsTruncated}

abbrev pub thousandths : Double ℕ
thousandths = record {
  of_u64 = λ n. n * 1000;
  to_u64 = λ x. x / 1000;
  is_nan = λ x. false;
  in_u64 = λ x. ltb (x / 1000) (2 ^ 64);
  to_u32 = λ x. x / 1000;
  add = λ x y. x + y;
  mul = λ x y. x * y / 1000;
  div = λ x y. x * 1000 / y;
  less = ltb;
  at_most = leb;
  neg = λ x. x;
  log = λ x. if x == 10 then 4605 else 693;
  pow = λ x y. x * x / 1000;
  hundredth = 10;
}

pub thousandths-IsOrdered : IsOrdered thousandths (λ x. Unit)
thousandths-IsOrdered = record {
  less_asymm = λ x y l. ground arith;
  less_between = λ x y z n l m. ground arith;
}

-- The same with sums of at most 2 ^ 60. The sums of doubles stop growing too, where what is added is
-- rounded away.
abbrev pub capped : Double ℕ
capped = record thousandths { add = λ x y. min (x + y) (2 ^ 60 * 1000) }

abbrev pub FitsBits : ℕ → ℕ → Type 0
FitsBits w x = x / 1000 < 2 ^ w

pub thousandths-IsTruncated : IsTruncated thousandths FitsBits
thousandths-IsTruncated = record {
  to_u64_positive = λ x fits l. ground arith;
  to_u32_positive = λ x fits l. ground arith;
}

pub capped-IsTruncated : IsTruncated capped FitsBits
capped-IsTruncated = record {
  to_u64_positive = λ x fits l. ground arith;
  to_u32_positive = λ x fits l. ground arith;
}
