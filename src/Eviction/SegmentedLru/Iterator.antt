-- ===== src/Eviction/SegmentedLru/Iterator.antt =====
-- `EvictionSegmentedLRU::VictimIterator`: over the probation segment backwards, then over the
-- protected segment backwards. A reverse iterator is the keys from its position to `rend`.
use mathlib.Core.List.{tail, head?}
use cachemere.Common.{
  ℕ, zero, suc, ◌+◌, ◌<◌, Outcome, ok, fault, undefined_behaviour, out_of_fuel, ◌>>=◌, ◌≡◌, refl,
  Bool, true, false, not, ◌&&◌, ◌||◌, none, some, Option, List, [], ◌∷◌, ◌++◌, arith, is_nonempty,
  length, ◌==◌, if◌then◌else◌,
}

pub record VictimIterator (K : Type 0) : Type 0 where
  pub probation_iterator : List K
  pub protected_iterator : List K
  pub done_with_probation : Bool

-- `a == b` of two Booleans.
abbrev same_flag : Bool → Bool → Bool
same_flag true b = b
same_flag false b = not b

module _ {K : Type 0} where
  -- The constructor; the end of the probation segment is the empty list.
  pub make_iterator : List K → List K → VictimIterator K
  make_iterator probation protected = record {
    probation_iterator = probation;
    protected_iterator = protected;
    done_with_probation = not (is_nonempty probation);
  }

  pub deref : VictimIterator K → Option K
  deref it = head? (if it.done_with_probation then it.protected_iterator else it.probation_iterator)

  pub increment : VictimIterator K → VictimIterator K
  increment it =
      if it.done_with_probation
      then record it { protected_iterator = tail it.protected_iterator }
      else let rest = tail it.probation_iterator in
        record it {
          probation_iterator = rest;
          done_with_probation = it.done_with_probation || not (is_nonempty rest);
        }

  -- Two positions in a list are equal if as much is left behind them.
  pub equals : VictimIterator K → VictimIterator K → Bool
  equals a b =
      (length a.protected_iterator == length b.protected_iterator)
      && (length a.probation_iterator == length b.probation_iterator)
      && same_flag a.done_with_probation b.done_with_probation

  -- The keys from the iterator to `victim_end`, by `!=`, `*` and `++`.
  unfoldable pub walk : ℕ → VictimIterator K → Outcome (List K)
  unfolding make_iterator deref increment equals
  walk zero it = fault out_of_fuel
  walk (suc fuel) it = elim (equals it (make_iterator [] [])) [
    | true ↦ ok []
    | false ↦ elim (deref it) [
      | none ↦ fault undefined_behaviour
      | some k ↦ do ks ← walk fuel (increment it); ok (k ∷ ks)
    ]
  ]

  -- From a new iterator it gives the probation segment and then the protected one, whole.
  pub walk-make_iterator :
      (fuel : ℕ) (probation protected : List K)
      → length probation + length protected < fuel
      → walk fuel (make_iterator probation protected) ≡ ok (probation ++ protected)
  unfolding walk
  walk-make_iterator zero probation protected h = absurd (omega arith)
  walk-make_iterator (suc fuel) [] [] h = refl
  walk-make_iterator (suc fuel) [] (k ∷ protected) h =
      ground (arith, walk-make_iterator fuel [] protected)
  walk-make_iterator (suc fuel) (k ∷ probation) protected h =
      ground (arith, walk-make_iterator fuel probation protected)
