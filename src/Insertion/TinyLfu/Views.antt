-- ===== src/Insertion/TinyLfu/Views.antt =====
-- TinyLFU knows a key by its hash only, whatever the type of the key.
use cachemere.Common.{
  ℕ, ◌≡◌, refl, sym, ◌∙◌, ap, fun_ext, inl, inr, ◌>>=◌, Outcome-cases, Bool-cases,
}
use cachemere.Filter.BitSet.{BitSet}
use cachemere.Filter.Bloom.{maybe_contains}
use cachemere.Filter.Counting
use cachemere.Filter.Bloom.ByHash.{add_by_hash, contains_by_hash}
use cachemere.Filter.Counting.ByHash.{count_by_hash, estimate_by_hash}
use cachemere.Insertion.TinyLfu.{InsertionTinyLfu, touch_item, on_cache_miss}

module _ {B : Type 0} (bitset : BitSet B) (s : InsertionTinyLfu B) where
  touch_by_hash :
      {K : Type 0} (hash : K → ℕ) (key : K)
      → touch_item bitset hash s key ≡ touch_item bitset (λ (n : ℕ). n) s (hash key)
  unfolding touch_item
  touch_by_hash hash key =
      elim (Outcome-cases (maybe_contains bitset (λ (n : ℕ). n) s.gatekeeper (hash key))) [
        | inr (e, failed) ↦
            rw (contains_by_hash bitset hash s.gatekeeper key, failed, touch_item) refl
        | inl (kept, ran) ↦ elim (Bool-cases kept) [
          | inl there ↦
              rw (contains_by_hash bitset hash s.gatekeeper key, ran, there, touch_item)
                (rw (count_by_hash hash s.frequency_sketch key) (
                  ap (λ f. Counting.add (λ (n : ℕ). n) s.frequency_sketch (hash key) >>= f)
                    (fun_ext (λ sketch. rw (estimate_by_hash hash sketch key) refl))))
          | inr fresh ↦
              rw (contains_by_hash bitset hash s.gatekeeper key, ran, fresh, touch_item)
                (rw (add_by_hash bitset hash s.gatekeeper key) refl)
        ]
      ]

  pub miss_by_hash :
      {K Q : Type 0} (hash : K → ℕ) (view_hash : Q → ℕ) (key : K) (view : Q)
      → hash key ≡ view_hash view
      → on_cache_miss bitset view_hash s view ≡ on_cache_miss bitset hash s key
  unfolding on_cache_miss
  miss_by_hash hash view_hash key view same =
      touch_by_hash view_hash view
      ∙ ap (touch_item bitset (λ (n : ℕ). n) s) (sym same)
      ∙ sym (touch_by_hash hash key)
