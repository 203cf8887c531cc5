-- ===== src/Cache/Locks/Finish.antt =====
-- Whether threads that lock one mutex or two can always come to their end.
use cachemere.Common.{
  ℕ, zero, suc, ◌<◌, ◌≤◌, ◌≡◌, refl, sym, ◌∙◌, ap, subst, none, some, List, [], arith, ℕ_discrete,
}
use native.Mathlib.Decide.{dec_lt}
use cachemere.Cache.Locks.{RecursiveMutex, Request, Pc, waiting, Locks, moves, Reach, start, next}
use cachemere.Cache.Locks.Alone.{
  Steps, Steps-trans, here, IsCalm, IsCalm-claims, Gets, stay, finish_one, settle,
}
use cachemere.Cache.Locks.Ownership.{owned, IsOwned, Reach-IsOwned}

unowned : (m : RecursiveMutex) → ((i : ℕ) → owned m i ≡ 0) → m ≡ none
unowned none h = refl
unowned (some (j, n)) h = absurd (ground (arith, h j))

module _ {Op : Type 0} where
  module _ (n : ℕ) where
    -- The first `m` threads have come to where `P` holds, and the others stand where they stood.
    record AllGet (P : Pc Op → Type 0) (m : ℕ) (s : Locks Op) : Type 0 where
      after : Locks Op
      path : Steps n s after
      owned_after : IsOwned after
      firsts : (i : ℕ) → i < m → P (after.pcs i)
      rest : (i : ℕ) → m ≤ i → after.pcs i ≡ s.pcs i

    -- One thread more.
    add_one :
        (P : Pc Op → Type 0) (m : ℕ) (s : Locks Op) (a : AllGet P m s) (pc : Pc Op)
        → P pc
        → Gets n m a.after pc
        → AllGet P (suc m) s
    add_one P m s a pc h g = record {
      after = g.after;
      path = Steps-trans a.path g.path;
      owned_after = g.owned_after;
      firsts = λ i lt. elim (ℕ_discrete m i) [
        | yes same ↦ subst P (sym (ap g.after.pcs (sym same) ∙ g.mine)) h
        | no other ↦ subst P (sym (g.others i other)) (a.firsts i (omega (arith, other)))
      ];
      rest = λ i le. g.others i (λ e. absurd (omega (arith, e))) ∙ a.rest i (omega arith);
    }

    none_yet : (P : Pc Op → Type 0) (s : Locks Op) → IsOwned s → AllGet P 0 s
    none_yet P s all = record {
      after = s;
      path = here;
      owned_after = all;
      firsts = λ i lt. absurd (omega arith);
      rest = λ i le. refl;
    }

    settle_all : (m : ℕ) (s : Locks Op) → m ≤ n → IsOwned s → AllGet IsCalm m s
    settle_all zero s le all = none_yet IsCalm s all
    settle_all (suc m) s le all =
        let a = settle_all m s (omega arith) all in
        let here_now = stay n m le a.after (a.after.pcs m) a.owned_after refl in
        let (pc, calm, g) = settle n m le a.after (a.after.pcs m) here_now in
        add_one IsCalm m s a pc calm g

    abbrev IsFinished : Pc Op → Type 0
    IsFinished pc = pc ≡ waiting []

    finish_all :
        (m : ℕ) (s : Locks Op)
        → m ≤ n
        → IsOwned s
        → ((i : ℕ) → IsCalm (s.pcs i))
        → AllGet IsFinished m s
    finish_all zero s le all calm = none_yet IsFinished s all
    finish_all (suc m) s le all calm =
        let a = finish_all m s (omega arith) all calm in
        let still : (i : ℕ) → IsCalm (a.after.pcs i) = λ i. elim (dec_lt i m) [
          | yes lt ↦ subst IsCalm (sym (a.firsts i lt)) tt
          | no ge ↦ subst IsCalm (sym (a.rest i (omega (arith, ge)))) (calm i)
        ] in
        add_one IsFinished m s a (waiting []) refl (
          finish_one n m le a.after (λ j ne. still j) (a.after.pcs m) (still m)
            (stay n m le a.after (a.after.pcs m) a.owned_after refl))

  Reach-beyond :
      (n : ℕ) (programs : ℕ → List (Request Op)) {s : Locks Op} (i : ℕ)
      → n ≤ i
      → Reach n programs s
      → s.pcs i ≡ waiting (programs i)
  Reach-beyond n programs i le start = refl
  Reach-beyond n programs i le (next {s} {s'} reach (moves j pc below move e)) =
      ap (λ f. f i) e ∙ ground (arith, Reach-beyond n programs i le reach)

  -- Threads that lock the mutexes of several caches, one at a time for an operation, or the two of
  -- a swap by `lock_pair`, which takes them in any order and may give one back before it has the
  -- other, never come into a deadlock, also where a cache is swapped with itself: from every state
  -- that they reach, some sequence of their steps brings all of them to the end of their programs,
  -- with every mutex free.
  pub Reach-finish :
      (n : ℕ) (programs : ℕ → List (Request Op)) {s : Locks Op}
      → Reach n programs s
      → (s' : Locks Op) × Steps n s s'
        × ((i : ℕ) → i < n → s'.pcs i ≡ waiting [])
        × ((x : ℕ) → s'.mutexes x ≡ none)
  Reach-finish n programs {s} reach =
      let calm = settle_all n n s (omega arith) (Reach-IsOwned n programs reach) in
      let all_calm : (i : ℕ) → IsCalm (calm.after.pcs i) = λ i. elim (dec_lt i n) [
        | yes lt ↦ calm.firsts i lt
        | no ge ↦
            subst IsCalm
              (sym (
                calm.rest i (omega (arith, ge))
                ∙ Reach-beyond n programs i (omega (arith, ge)) reach))
              tt
      ] in
      let done = finish_all n n calm.after (omega arith) calm.owned_after all_calm in
      let idle : (i : ℕ) → IsCalm (done.after.pcs i) = λ i. elim (dec_lt i n) [
        | yes lt ↦ subst IsCalm (sym (done.firsts i lt)) tt
        | no ge ↦ subst IsCalm (sym (done.rest i (omega (arith, ge)))) (all_calm i)
      ] in
      (
        done.after,
        Steps-trans calm.path done.path,
        done.firsts,
        λ x.
            unowned (done.after.mutexes x)
              (λ i. done.owned_after i x ∙ IsCalm-claims (done.after.pcs i) x (idle i)),
      )
