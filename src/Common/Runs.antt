-- ===== src/Common/Runs.antt =====
-- A list of commands in turn, over any step.
use mathlib.Core.Path.{◌≡◌, refl, sym, ap, ◌∙◌}
use mathlib.Core.Logic.{inl, inr}
use mathlib.Core.List.{List, [], ◌∷◌, ◌++◌}
use native.Mathlib.Omega.{arith}
use cachemere.Common.Outcomes.{Outcome, ok, ◌>>=◌, ok_inj, Outcome-cases}

module _ {C S R : Type 0} (step : C → S → Outcome (S × R)) where
  unfoldable pub run_all : List C → S → Outcome (S × List R)
  run_all [] c = ok (c, [])
  run_all (command ∷ commands) c = do
    (c', reply) ← step command c
    (c'', replies) ← run_all commands c'
    ok (c'', reply ∷ replies)

  pub run_all-snoc :
      (commands : List C) (command : C) (c c' c'' : S) (replies : List R) (reply : R)
      → run_all commands c ≡ ok (c', replies)
      → step command c' ≡ ok (c'', reply)
      → run_all (commands ++ command ∷ []) c ≡ ok (c'', replies ++ reply ∷ [])
  unfolding run_all
  run_all-snoc [] command c c' c'' replies reply ran last =
      let a : S × List R = (c, []) in
      let b : S × List R = (c', replies) in
      let same : a ≡ b = ok_inj a b ran in
      let here : step command c ≡ ok (c'', reply) = ap (λ p. step command p.0) same ∙ last in
      rw here (ap (λ p. ok (c'', p.1 ++ reply ∷ [])) same)
  run_all-snoc (first ∷ commands) command c c' c'' replies reply ran last =
      elim (Outcome-cases (step first c)) [
        | inr (e, failed) ↦ absurd (ground (arith, failed, ran))
        | inl ((c1, r1), stepped) ↦ elim (Outcome-cases (run_all commands c1)) [
          | inr (e, failed) ↦ absurd (ground (arith, stepped, failed, ran))
          | inl ((c2, rs), went) ↦
              let a : S × List R = (c2, r1 ∷ rs) in
              let b : S × List R = (c', replies) in
              let whole : run_all (first ∷ commands) c ≡ ok a = rw (stepped, went, run_all) refl in
              let same : a ≡ b = ok_inj a b (sym whole ∙ ran) in
              let here : step command c2 ≡ ok (c'', reply) =
                ap (λ p. step command p.0) same ∙ last in
              rw (stepped, run_all-snoc commands command c1 c2 c'' rs reply went here, run_all)
                (ap (λ p. ok (c'', p.1 ++ reply ∷ [])) same)
        ]
      ]
