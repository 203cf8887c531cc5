-- ===== src/Cache/Threads/Progress.antt =====
-- Whether threads can go on.
use cachemere.Common.{
  ℕ, zero, suc, ◌<◌, ◌≤◌, ℕ_discrete, ◌≡◌, refl, sym, ◌∙◌, ap, Option, List, [], ◌∷◌, arith, ◌⊎◌,
  inl, inr, Option-cases,
}
use cachemere.Cache.Threads.{waiting, System, Step, locks, works, unlocks, Reach}
use cachemere.Cache.Threads.Serial.{IsIdle, IsBusy, Reach-IsSerial}

module _ {S L Op : Type 0} (begin : Op → L) (advance : L → S → S × Option L) where
  abbrev pub AreFinished : ℕ → System S L Op → Type 0
  AreFinished n s = (i : ℕ) → i < n → s.pcs i ≡ waiting []

  CanStep : ℕ → System S L Op → Type 0
  CanStep n s = (s' : System S L Op) × Step begin advance n s s'

  -- Over the first `m` threads.
  idle_progress :
      (n m : ℕ) (x : S) (programs : ℕ → List Op) (s : System S L Op)
      → IsIdle begin advance x programs s
      → m ≤ n
      → AreFinished m s ⊎ CanStep n s
  unfolding CanStep
  idle_progress n zero x programs s v le = inl (λ i below. absurd (omega arith))
  idle_progress n (suc m) x programs s v le = elim (todo_of (v.todo m)) [
    | inr (op, todo, e) ↦
        inr (_, locks m op todo (omega arith) (v.all_wait m ∙ ap waiting e) v.free refl)
    | inl e ↦ elim (idle_progress n m x programs s v (omega arith)) [
      | inr can ↦ inr can
      | inl finished ↦ inl (λ i below. elim (ℕ_discrete m i) [
        | yes same ↦ ap s.pcs (sym same) ∙ v.all_wait m ∙ ap waiting e
        | no other ↦ finished i (omega (arith, other))
      ])
    ]
  ]
    where
      todo_of : (todo : List Op) → (todo ≡ []) ⊎ ((op : Op) × (rest : List Op) × (todo ≡ op ∷ rest))
      todo_of [] = inl refl
      todo_of (op ∷ rest) = inr (op, rest, refl)

  busy_progress :
      (n : ℕ) (x : S) (programs : ℕ → List Op) (s : System S L Op)
      → IsBusy begin advance x programs n s
      → CanStep n s
  unfolding CanStep
  busy_progress n x programs s v = elim (Option-cases (advance v.at s.shared).1) [
    | inl ends ↦ (
      _,
      unlocks v.holder v.at (v.todo v.holder) (advance v.at s.shared).0 v.inside v.works_there
          (ap (λ z. ((advance v.at s.shared).0, z)) ends) refl,
    )
    | inr (l', goes_on) ↦ (
      _,
      works v.holder v.at l' (v.todo v.holder) (advance v.at s.shared).0 v.inside v.works_there
          (ap (λ z. ((advance v.at s.shared).0, z)) goes_on) refl,
    )
  ]

  -- Threads that run programs of operations under one mutex, interleaved in any way, are never
  -- stuck: in every state that they reach, all of them are finished, or one of them can make a
  -- step.
  pub Reach-progress :
      (n : ℕ) (x : S) (programs : ℕ → List Op) {s : System S L Op}
      → Reach begin advance n x programs s
      → AreFinished n s ⊎ ((s' : System S L Op) × Step begin advance n s s')
  unfolding CanStep
  Reach-progress n x programs {s} reach = elim (Reach-IsSerial begin advance n x programs reach) [
    | inl v ↦ idle_progress n n x programs s v (omega arith)
    | inr v ↦ inr (busy_progress n x programs s v)
  ]
