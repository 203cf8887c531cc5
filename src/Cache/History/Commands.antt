-- ===== src/Cache/History/Commands.antt =====
-- What the cache does with each command.
use mathlib.Core.Option
use cachemere.Common.{
  ℕ, ◌≤◌, ◌<◌, ◌≡◌, refl, sym, ◌∙◌, ap, inl, inr, ite, Bool, true, false, some, is_some, List, [],
  ◌∷◌, arith, ok, Option-cases,
}
use cachemere.Item.{Item, size_mod, make_item}
use cachemere.Policy.Laws.{RemovalLaws}
use cachemere.Cache.{Cache, Template}
use cachemere.Cache.Events.{new_item}
use cachemere.Cache.Operations
use cachemere.Cache.Invariant.{Contract}
use cachemere.Cache.Insertion.Insert.{insert_lem}
use cachemere.Cache.Lookups.{find_lem}
use cachemere.Cache.Removals.{remove_lem, retain_lem}
use cachemere.Cache.Shrinking.{update_constraint_lem}
use cachemere.Cache.Lifecycle.Import.{import_lem, overlay}
use cachemere.Cache.Lifecycle.{clear_lem}
use cachemere.Cache.History.{
  Command, inserts, finds, asks, removes, clears, retains, bounds, imports, collects, visits,
  counts, resizes, answered, found, done, step,
}
use cachemere.Cache.History.Spec.{
  Contents, assign, assign_all, stores, refuses, looks_up, tells, drops, empties, filters, forgets,
  copies,
}
use cachemere.Cache.History.Listings.{
  collect-IsAnswered, visit-IsAnswered, count-IsAnswered, resize-IsAnswered,
}
use cachemere.Cache.History.Answers.{
  contents, IsSmall, AllSmall, IsTame, IsReady, IsAnswered, roomy, all_roomy,
}

module _ {K V I E C D A R : Type 0} {dec : Discrete K} {t : Template K V I E C D A R}
    {Good : I → Type 0} {Inv : E → Type 0} {weight : Item V → ℕ} {used limit : C → ℕ}
    (laws : Contract dec t Good Inv weight used limit) (CanRemove : Type 0)
    (removal : CanRemove → RemovalLaws dec t.eviction Inv) where
  insert-IsAnswered :
      (most : ℕ) (c : Cache I E C D A) (k : K) (v : V)
      → most < size_mod
      → IsReady laws most c
      → IsSmall t weight most k v
      → IsAnswered laws most c (inserts k v)
  unfolding step new_item make_item
  insert-IsAnswered most c k v fits ready small =
      elim (insert_lem laws c k v ready.valid (roomy laws most c k v ready small)) [
        | inl (refused, why) ↦ record {
          after = c;
          reply = answered false;
          ran = rw (refused, step) refl;
          ready = ready;
          allowed = refuses (λ j. refl);
        }
        | inr (es, c', stored, ins) ↦ record {
          after = c';
          reply = answered true;
          ran = rw (stored, step) refl;
          ready = record {
            valid = ins.valid;
            limited = omega (arith, ins.limit_same, ready.limited);
          };
          allowed = stores (ground (arith, ins.contents k)) (λ j. ground (arith, ins.contents j));
        }
      ]

  find-IsAnswered :
      (most : ℕ) (c : Cache I E C D A) (k : K)
      → IsReady laws most c
      → IsAnswered laws most c (finds k)
  unfolding step
  find-IsAnswered most c k ready =
      let (c', ran, read) = find_lem laws c k ready.valid in
      record {
        after = c';
        reply = found (contents t c k);
        ran = rw (ran, step) refl;
        ready = record {
          valid = read.valid;
          limited = omega (arith, read.limit_same, ready.limited);
        };
        allowed = looks_up (λ j. rw read.items refl);
      }

  there :
      (c : Cache I E C D A) (k : K) → is_some (t.data_map.find c.items k) ≡ is_some (contents t c k)
  there c k = elim (Option-cases (t.data_map.find c.items k)) [
    | inl missing ↦ rw missing refl
    | inr (item, here) ↦ rw here refl
  ]

  ask-IsAnswered :
      (most : ℕ) (c : Cache I E C D A) (k : K)
      → IsReady laws most c
      → IsAnswered laws most c (asks k)
  unfolding step Operations.contains
  ask-IsAnswered most c k ready = record {
    after = c;
    reply = answered (is_some (contents t c k));
    ran = ap (λ b. ok (c, answered b)) (there c k);
    ready = ready;
    allowed = tells (λ j. refl);
  }

  remove-IsAnswered :
      (most : ℕ) (c : Cache I E C D A) (k : K)
      → CanRemove
      → IsReady laws most c
      → IsAnswered laws most c (removes k)
  unfolding step Operations.contains
  remove-IsAnswered most c k can ready =
      let (c', ran, f) = remove_lem laws (removal can) c k ready.valid in
      record {
        after = c';
        reply = answered (is_some (contents t c k));
        ran = rw (ran, step) (ap (λ b. ok (c', answered b)) (there c k));
        ready = record { valid = f.valid; limited = omega (arith, f.limit_same, ready.limited) };
        allowed = drops (λ j. ground (arith, f.contents j));
      }

  clear-IsAnswered :
      (most : ℕ) (c : Cache I E C D A) → IsReady laws most c → IsAnswered laws most c clears
  unfolding step
  clear-IsAnswered most c ready =
      let fresh = clear_lem laws c ready.valid in
      record {
        after = Operations.clear dec t c;
        reply = done;
        ran = refl;
        ready = record {
          valid = fresh.valid;
          limited = omega (arith, fresh.limit_is, ready.limited);
        };
        allowed = empties (λ j. rw (fresh.vacant j) refl);
      }

  retain-IsAnswered :
      (most : ℕ) (c : Cache I E C D A) (p : K → V → Bool)
      → CanRemove
      → IsReady laws most c
      → IsAnswered laws most c (retains p)
  unfolding step
  retain-IsAnswered most c p can ready =
      let (c', ran, f) = retain_lem laws (removal can) p c ready.valid in
      record {
        after = c';
        reply = done;
        ran = rw (ran, step) refl;
        ready = record { valid = f.valid; limited = omega (arith, f.limit_same, ready.limited) };
        allowed = filters (λ j. ground (arith, f.contents j));
      }

  bound-IsAnswered :
      (most : ℕ) (c : Cache I E C D A) (bound : ℕ)
      → most < size_mod
      → IsReady laws most c
      → bound ≤ most
      → IsAnswered laws most c (bounds bound)
  unfolding step
  bound-IsAnswered most c bound fits ready small =
      let (es, c', ran, valid, limit', last, order, kept) =
        update_constraint_lem laws c bound ready.valid (omega (arith, fits, small)) in
      record {
        after = c';
        reply = done;
        ran = rw (ran, step) refl;
        ready = record { valid = valid; limited = omega (arith, limit', small) };
        allowed = forgets (λ j. ground (arith, kept j));
      }

  overlay-assign_all :
      (stored : List (K × V)) (j : K) (o : Option.Option (Item V)) (m : Contents K V)
      → m j ≡ Option.map (λ item. item.value) o
      → Option.map (λ item. item.value) (overlay laws stored j o) ≡ assign_all dec stored m j
  unfolding new_item make_item
  overlay-assign_all [] j o m e = sym e
  overlay-assign_all ((k, v) ∷ rest) j o m e =
      overlay-assign_all rest j (ite (dec k j) (some (new_item t k v)) o) (assign dec k v m)
        (ground (arith, e))

  import-IsAnswered :
      (most : ℕ) (c : Cache I E C D A) (collection : List (K × V))
      → IsReady laws most c
      → AllSmall t weight most collection
      → IsAnswered laws most c (imports collection)
  unfolding step
  import-IsAnswered most c collection ready small =
      let (stored, rest, c', ran, valid, limit_same, split, stopped, kept) =
        import_lem laws collection c ready.valid (all_roomy laws most c collection ready small) in
      record {
        after = c';
        reply = done;
        ran = rw (ran, step) refl;
        ready = record { valid = valid; limited = omega (arith, limit_same, ready.limited) };
        allowed = copies stored rest split (λ j.
            ap (Option.map (λ item. item.value)) (kept j)
            ∙ overlay-assign_all stored j (t.data_map.find c.items j) (contents t c) refl);
      }

  pub command-IsAnswered :
      (most : ℕ) (command : Command K V) (c : Cache I E C D A)
      → most < size_mod
      → IsReady laws most c
      → IsTame t weight CanRemove most command
      → IsAnswered laws most c command
  command-IsAnswered most (inserts k v) c fits ready tame =
      insert-IsAnswered most c k v fits ready tame
  command-IsAnswered most (finds k) c fits ready tame = find-IsAnswered most c k ready
  command-IsAnswered most (asks k) c fits ready tame = ask-IsAnswered most c k ready
  command-IsAnswered most (removes k) c fits ready tame = remove-IsAnswered most c k tame ready
  command-IsAnswered most clears c fits ready tame = clear-IsAnswered most c ready
  command-IsAnswered most (retains p) c fits ready tame = retain-IsAnswered most c p tame ready
  command-IsAnswered most (bounds bound) c fits ready tame =
      bound-IsAnswered most c bound fits ready tame
  command-IsAnswered most (imports collection) c fits ready tame =
      import-IsAnswered most c collection ready tame
  command-IsAnswered most (collects container) c fits ready tame =
      collect-IsAnswered laws most c container ready
  command-IsAnswered most visits c fits ready tame = visit-IsAnswered laws most c ready
  command-IsAnswered most counts c fits ready tame = count-IsAnswered laws most c ready
  command-IsAnswered most (resizes window_size) c fits ready tame =
      resize-IsAnswered laws most c window_size ready
