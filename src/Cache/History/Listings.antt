-- ===== src/Cache/History/Listings.antt =====
-- What `collect_into`, `for_each` and `number_of_items` go through: the pairs of the map, each once.
use mathlib.Core.Option
use mathlib.Core.List.{lookup, foldl, append_assoc, append-nil}
use cachemere.Common.{
  ℕ, ◌≡◌, refl, sym, ◌∙◌, ap, List, [], ◌∷◌, ◌++◌, map, arith, ok, length, DistinctKeys,
}
use cachemere.Item.{Item}
use cachemere.Cache.{Cache, Template}
use cachemere.Cache.Operations.{collect_into, for_each, number_of_items, set_statistics_window_size}
use cachemere.Cache.Invariant.{Contract}
use cachemere.Cache.History.{
  collects, visits, counts, resizes, listed, counted, done, emplace_back, step,
}
use cachemere.Cache.History.Spec.{Lists, collected, visited, sized, stays}
use cachemere.Cache.History.Answers.{contents, IsReady, IsAnswered}

module _ {K V : Type 0} (dec : Discrete K) where
  abbrev pairs : List (K × Item V) → List (K × V)
  pairs = map (λ e. (e.0, e.1.value))

  foldl-emplace_back :
      (acc : List (K × V)) (es : List (K × Item V))
      → foldl (λ s e. emplace_back s e.0 e.1.value) acc es ≡ acc ++ pairs es
  foldl-emplace_back acc [] = sym (append-nil acc)
  foldl-emplace_back acc (e ∷ es) =
      foldl-emplace_back (acc ++ (e.0, e.1.value) ∷ []) es
      ∙ append_assoc acc ((e.0, e.1.value) ∷ []) (pairs es)

  lookup-pairs :
      (j : K) (es : List (K × Item V))
      → lookup dec j (pairs es) ≡ Option.map (λ item. item.value) (lookup dec j es)
  unfolding lookup
  lookup-pairs j [] = refl
  lookup-pairs j (e ∷ es) = ground (arith, lookup-pairs j es)

  pairs-DistinctKeys : (es : List (K × Item V)) → DistinctKeys dec es → DistinctKeys dec (pairs es)
  pairs-DistinctKeys [] d = tt
  pairs-DistinctKeys (e ∷ es) d =
      (ground (arith, lookup-pairs e.0 es, d.0), pairs-DistinctKeys es d.1)

  length-pairs : (es : List (K × Item V)) → length (pairs es) ≡ length es
  length-pairs [] = refl
  length-pairs (e ∷ es) = omega (arith, length-pairs es)

module _ {K V I E C D A R : Type 0} {dec : Discrete K} {t : Template K V I E C D A R}
    {Good : I → Type 0} {Inv : E → Type 0} {weight : Item V → ℕ} {used limit : C → ℕ}
    (laws : Contract dec t Good Inv weight used limit) where
  entries-Lists :
      (c : Cache I E C D A) → Lists dec (contents t c) (pairs dec (t.data_map.entries c.items))
  entries-Lists c = record {
    distinct =
        pairs-DistinctKeys dec (t.data_map.entries c.items)
          (laws.data_map.entries-DistinctKeys c.items);
    agrees = λ j.
        lookup-pairs dec j (t.data_map.entries c.items)
        ∙ ap (Option.map (λ item. item.value)) (sym (laws.data_map.find-entries c.items j));
  }

  pub collect-IsAnswered :
      (most : ℕ) (c : Cache I E C D A) (container : List (K × V))
      → IsReady laws most c
      → IsAnswered laws most c (collects container)
  unfolding step collect_into
  collect-IsAnswered most c container ready = record {
    after = c;
    reply = listed (container ++ pairs dec (t.data_map.entries c.items));
    ran =
        ap (λ l. ok (c, listed l)) (foldl-emplace_back dec container (t.data_map.entries c.items));
    ready = ready;
    allowed = collected (pairs dec (t.data_map.entries c.items)) (λ j. refl) (entries-Lists c);
  }

  pub visit-IsAnswered :
      (most : ℕ) (c : Cache I E C D A) → IsReady laws most c → IsAnswered laws most c visits
  unfolding step for_each
  visit-IsAnswered most c ready = record {
    after = c;
    reply = listed (pairs dec (t.data_map.entries c.items));
    ran = ap (λ l. ok (c, listed l)) (foldl-emplace_back dec [] (t.data_map.entries c.items));
    ready = ready;
    allowed = visited (pairs dec (t.data_map.entries c.items)) (λ j. refl) (entries-Lists c);
  }

  pub count-IsAnswered :
      (most : ℕ) (c : Cache I E C D A) → IsReady laws most c → IsAnswered laws most c counts
  unfolding step number_of_items
  count-IsAnswered most c ready = record {
    after = c;
    reply = counted (length (pairs dec (t.data_map.entries c.items)));
    ran = ap (λ n. ok (c, counted n)) (sym (length-pairs dec (t.data_map.entries c.items)));
    ready = ready;
    allowed = sized (pairs dec (t.data_map.entries c.items)) (λ j. refl) (entries-Lists c);
  }

  pub resize-IsAnswered :
      (most : ℕ) (c : Cache I E C D A) (window_size : ℕ)
      → IsReady laws most c
      → IsAnswered laws most c (resizes window_size)
  unfolding step set_statistics_window_size
  resize-IsAnswered most c window_size ready = record {
    after = set_statistics_window_size dec t c window_size;
    reply = done;
    ran = refl;
    ready = record {
      valid = record {
        coherent = record {
          good = ready.valid.coherent.good;
          inv = ready.valid.coherent.inv;
          tracked = ready.valid.coherent.tracked;
          accounted = ready.valid.coherent.accounted;
          small = ready.valid.coherent.small;
          measured = ready.valid.coherent.measured;
        };
        within = ready.valid.within;
        bounded = ready.valid.bounded;
      };
      limited = ready.limited;
    };
    allowed = stays (λ j. refl);
  }
