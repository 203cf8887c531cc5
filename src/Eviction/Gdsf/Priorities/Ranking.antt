-- ===== src/Eviction/Gdsf/Priorities/Ranking.antt =====
-- The priority set stays in ascending order of the coefficients, where these are numbers.
use cachemere.Common.{
  ℕ, ◌≡◌, false, [], ◌∷◌, erase_key, ℕ_discrete, Bool-cases, inl, inr, if_pos, if_neg,
}
use cachemere.Double.{Double, IsOrdered}
use cachemere.Eviction.Gdsf.Priorities.{PrioritySet, PriorityEntry, emplace}

module _ {K W : Type 0} {d : Double W} {IsNumber : W → Type 0}
    (ordered : IsOrdered d IsNumber) where
  open ordered use {less_asymm, less_between}

  -- No entry is below `w`.
  abbrev pub AllAbove : W → PrioritySet K W → Type 0
  AllAbove w [] = Unit
  AllAbove w (n ∷ set) = (d.less n.1.h_coefficient w ≡ false) × AllAbove w set

  -- Every coefficient is a number, and none is below one before it.
  abbrev pub IsRanked : PrioritySet K W → Type 0
  IsRanked [] = Unit
  IsRanked (n ∷ set) = IsNumber n.1.h_coefficient × AllAbove n.1.h_coefficient set × IsRanked set

  AllAbove-trans :
      (x y : W) (set : PrioritySet K W)
      → IsNumber y
      → d.less y x ≡ false
      → AllAbove y set
      → AllAbove x set
  AllAbove-trans x y [] number le above = tt
  AllAbove-trans x y (n ∷ set) number le above = (
    less_between x y n.1.h_coefficient number le above.0,
    AllAbove-trans x y set number le above.1,
  )

  AllAbove-emplace :
      (w : W) (node : ℕ × PriorityEntry K W) (set : PrioritySet K W)
      → d.less node.1.h_coefficient w ≡ false
      → AllAbove w set
      → AllAbove w (emplace d node set)
  unfolding emplace
  AllAbove-emplace w node [] le above = (le, tt)
  AllAbove-emplace w node (n ∷ set) le above =
      elim (Bool-cases (d.less node.1.h_coefficient n.1.h_coefficient)) [
        | inl before ↦ rw (before, emplace) (le, above)
        | inr behind ↦ rw (behind, emplace) (above.0, AllAbove-emplace w node set le above.1)
      ]

  pub emplace-IsRanked :
      (node : ℕ × PriorityEntry K W) (set : PrioritySet K W)
      → IsNumber node.1.h_coefficient
      → IsRanked set
      → IsRanked (emplace d node set)
  unfolding emplace
  emplace-IsRanked node [] number ranked = (number, tt, tt)
  emplace-IsRanked node (n ∷ set) number ranked =
      elim (Bool-cases (d.less node.1.h_coefficient n.1.h_coefficient)) [
        | inl before ↦
            let above = less_asymm node.1.h_coefficient n.1.h_coefficient before in
            rw (before, emplace)
              (
                number,
                (
                  above,
                  AllAbove-trans node.1.h_coefficient n.1.h_coefficient set ranked.0 above ranked.1,
                ),
                ranked,
              )
        | inr behind ↦
            rw (behind, emplace)
              (
                ranked.0,
                AllAbove-emplace n.1.h_coefficient node set behind ranked.1,
                emplace-IsRanked node set number ranked.2,
              )
      ]

  AllAbove-erase :
      (w : W) (it : ℕ) (set : PrioritySet K W)
      → AllAbove w set
      → AllAbove w (erase_key ℕ_discrete it set)
  AllAbove-erase w it [] above = tt
  AllAbove-erase w it (n ∷ set) above = elim (ℕ_discrete it n.0) [
    | yes same ↦ rw (if_pos _ same) above.1
    | no other ↦ rw (if_neg _ other) (above.0, AllAbove-erase w it set above.1)
  ]

  pub erase-IsRanked :
      (it : ℕ) (set : PrioritySet K W) → IsRanked set → IsRanked (erase_key ℕ_discrete it set)
  erase-IsRanked it [] ranked = tt
  erase-IsRanked it (n ∷ set) ranked = elim (ℕ_discrete it n.0) [
    | yes same ↦ rw (if_pos _ same) ranked.2
    | no other ↦
        rw (if_neg _ other) (
          ranked.0,
          AllAbove-erase n.1.h_coefficient it set ranked.1,
          erase-IsRanked it set ranked.2,
        )
  ]
