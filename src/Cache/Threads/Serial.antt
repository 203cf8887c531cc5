-- ===== src/Cache/Threads/Serial.antt =====
-- What threads have done, as one operation after the other.
use cachemere.Common.{
  ℕ, ◌<◌, ◌≡◌, refl, sym, ◌∙◌, ap, ite, Option, none, some, List, [], ◌∷◌, ◌++◌, arith, ℕ_discrete,
  subst, ◌⊎◌, inl, inr,
}
use mathlib.Core.List.{append_assoc}
use cachemere.Cache.Threads.{
  Pc, waiting, working, System, Step, locks, works, unlocks, Reach, start, next, update,
}

waiting_inj :
    {L Op : Type 0} (pc : Pc L Op) (a b : List Op) → pc ≡ waiting a → pc ≡ waiting b → a ≡ b
waiting_inj pc a b e e' = cc (e, e')

module _ {S L Op : Type 0} (begin : Op → L) (advance : L → S → S × Option L) where
  -- From where a thread stands to the end of its operation.
  pub data Runs : L → S → S → Type 0 where
    last : {l : L} {x x' : S} → advance l x ≡ (x', none) → Runs l x x'
    more : {l l' : L} {x x' x'' : S} → advance l x ≡ (x', some l') → Runs l' x' x'' → Runs l x x''

  -- One operation after the other, each with the thread that does it.
  pub data Serially (x : S) : List (ℕ × Op) → S → Type 0 where
    nothing : Serially x [] x
    then_one :
        {done : List (ℕ × Op)} {x' x'' : S} (i : ℕ) (op : Op)
        → Serially x done x'
        → Runs (begin op) x' x''
        → Serially x (done ++ (i, op) ∷ []) x''

  unfoldable pub of_thread : ℕ → List (ℕ × Op) → List Op
  of_thread i [] = []
  of_thread i (d ∷ done) = ite (ℕ_discrete d.0 i) (d.1 ∷ of_thread i done) (of_thread i done)

  abbrev pub rest_of : Pc L Op → List Op
  rest_of (waiting todo) = todo
  rest_of (working l todo) = todo

  pub of_thread-snoc :
      (i j : ℕ) (op : Op) (done : List (ℕ × Op))
      → of_thread i (done ++ (j, op) ∷ []) ≡ of_thread i done ++ ite (ℕ_discrete j i) (op ∷ []) []
  unfolding of_thread
  of_thread-snoc i j op [] = ground arith
  of_thread-snoc i j op (d ∷ done) = ground (arith, of_thread-snoc i j op done)

  -- No thread works, and what has been done is serial and a first part of the programs.
  pub record IsIdle (x : S) (programs : ℕ → List Op) (s : System S L Op) : Type 0 where
    pub free : s.mutex ≡ none
    pub todo : ℕ → List Op
    pub all_wait : (i : ℕ) → s.pcs i ≡ waiting (todo i)
    pub done : List (ℕ × Op)
    pub serial : Serially x done s.shared
    pub order : (i : ℕ) → of_thread i done ++ todo i ≡ programs i

  -- One thread works, and completes what has been done; the others wait.
  pub record IsBusy (x : S) (programs : ℕ → List Op) (n : ℕ) (s : System S L Op) : Type 0 where
    pub holder : ℕ
    pub held : s.mutex ≡ some holder
    pub inside : holder < n
    pub at : L
    pub todo : ℕ → List Op
    pub works_there : s.pcs holder ≡ working at (todo holder)
    pub others_wait : (i : ℕ) → (holder ≡ i → ⊥) → s.pcs i ≡ waiting (todo i)
    pub op : Op
    pub done : List (ℕ × Op)
    pub completes : (x' : S) → Runs at s.shared x' → Serially x (done ++ (holder, op) ∷ []) x'
    pub order : (i : ℕ) → of_thread i (done ++ (holder, op) ∷ []) ++ todo i ≡ programs i

  abbrev pub IsSerial : ℕ → S → (ℕ → List Op) → System S L Op → Type 0
  IsSerial n x programs s = IsIdle x programs s ⊎ IsBusy x programs n s

  -- The thread that takes the lock.
  locked :
      (n : ℕ) (x : S) (programs : ℕ → List Op) (s : System S L Op) (i : ℕ) (op : Op)
      (todo : List Op)
      → IsIdle x programs s
      → i < n
      → s.pcs i ≡ waiting (op ∷ todo)
      → IsBusy x programs n (record {
        shared = s.shared;
        mutex = some i;
        pcs = update s.pcs i (working (begin op) todo);
      })
  locked n x programs s i op todo v inside here = record {
    holder = i;
    held = refl;
    inside = inside;
    at = begin op;
    todo = λ j. ite (ℕ_discrete i j) todo (v.todo j);
    works_there = ground arith;
    others_wait = λ j ne. ground (arith, v.all_wait j, ne);
    op = op;
    done = v.done;
    completes = λ x' r. then_one i op v.serial r;
    order = λ j.
        let mine : v.todo i ≡ op ∷ todo =
          waiting_inj (s.pcs i) (v.todo i) (op ∷ todo) (v.all_wait i) here in
        ap (λ l. l ++ ite (ℕ_discrete i j) todo (v.todo j)) (of_thread-snoc j i op v.done)
        ∙ append_assoc (of_thread j v.done) (ite (ℕ_discrete i j) (op ∷ []) [])
            (ite (ℕ_discrete i j) todo (v.todo j))
        ∙ ap (λ l. of_thread j v.done ++ l) (ground (arith, mine))
        ∙ v.order j;
  }

  only_holder :
      (n : ℕ) (x : S) (programs : ℕ → List Op) (s : System S L Op) (i : ℕ) (l : L) (todo : List Op)
      (v : IsBusy x programs n s)
      → s.pcs i ≡ working l todo
      → (v.holder ≡ i) × (v.at ≡ l) × (v.todo i ≡ todo)
  only_holder n x programs s i l todo v here = elim (ℕ_discrete v.holder i) [
    | yes same ↦
        let there : working v.at (v.todo i) ≡ working l todo =
          ap (working v.at) (ap v.todo (sym same)) ∙ sym v.works_there ∙ ap s.pcs same ∙ here in
        (same, cc, cc)
    | no other ↦ absurd (ground (arith, v.others_wait i other, here))
  ]

  worked :
      (n : ℕ) (x : S) (programs : ℕ → List Op) (s : System S L Op) (i : ℕ) (l l' : L)
      (todo : List Op) (y : S)
      → IsBusy x programs n s
      → s.pcs i ≡ working l todo
      → advance l s.shared ≡ (y, some l')
      → IsBusy x programs n
          (record { shared = y; mutex = s.mutex; pcs = update s.pcs i (working l' todo) })
  worked n x programs s i l l' todo y v here step =
      let (same, at_l, left) = only_holder n x programs s i l todo v here in
      record {
        holder = v.holder;
        held = v.held;
        inside = v.inside;
        at = l';
        todo = v.todo;
        works_there = ground (arith, same, left);
        others_wait = λ j ne. ground (arith, v.others_wait j, same, ne);
        op = v.op;
        done = v.done;
        completes =
            λ x' r. v.completes x' (subst (λ k. Runs k s.shared x') (sym at_l) (more step r));
        order = v.order;
      }

  unlocked :
      (n : ℕ) (x : S) (programs : ℕ → List Op) (s : System S L Op) (i : ℕ) (l : L) (todo : List Op)
      (y : S)
      → IsBusy x programs n s
      → s.pcs i ≡ working l todo
      → advance l s.shared ≡ (y, none)
      → IsIdle x programs (record { shared = y; mutex = none; pcs = update s.pcs i (waiting todo) })
  unlocked n x programs s i l todo y v here step =
      let (same, at_l, left) = only_holder n x programs s i l todo v here in
      record {
        free = refl;
        todo = v.todo;
        all_wait = λ j. ground (arith, v.others_wait j, same, left);
        done = v.done ++ (v.holder, v.op) ∷ [];
        serial = v.completes y (subst (λ k. Runs k s.shared y) (sym at_l) (last step));
        order = v.order;
      }

  Step-IsSerial :
      (n : ℕ) (x : S) (programs : ℕ → List Op) (s s' : System S L Op)
      → IsSerial n x programs s
      → Step begin advance n s s'
      → IsSerial n x programs s'
  Step-IsSerial n x programs s s' (inl v) (locks i op todo inside here free e) =
      inr (subst (IsBusy x programs n) (sym e) (locked n x programs s i op todo v inside here))
  Step-IsSerial n x programs s s' (inl v) (works i l l' todo y inside here step e) =
      absurd (ground (arith, v.all_wait i, here))
  Step-IsSerial n x programs s s' (inl v) (unlocks i l todo y inside here step e) =
      absurd (ground (arith, v.all_wait i, here))
  Step-IsSerial n x programs s s' (inr v) (locks i op todo inside here free e) =
      absurd (ground (arith, v.held, free))
  Step-IsSerial n x programs s s' (inr v) (works i l l' todo y inside here step e) =
      inr (subst (IsBusy x programs n) (sym e) (worked n x programs s i l l' todo y v here step))
  Step-IsSerial n x programs s s' (inr v) (unlocks i l todo y inside here step e) =
      inl (subst (IsIdle x programs) (sym e) (unlocked n x programs s i l todo y v here step))

  pub Reach-IsSerial :
      (n : ℕ) (x : S) (programs : ℕ → List Op) {s : System S L Op}
      → Reach begin advance n x programs s
      → IsSerial n x programs s
  unfolding of_thread
  Reach-IsSerial n x programs start = inl (record {
    free = refl;
    todo = programs;
    all_wait = λ i. refl;
    done = [];
    serial = nothing;
    order = λ i. refl;
  })
  Reach-IsSerial n x programs (next {s} {s'} reach step) =
      Step-IsSerial n x programs s s' (Reach-IsSerial n x programs reach) step
