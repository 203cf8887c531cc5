-- ===== src/Eviction/Gdsf/Indexed.antt =====
-- The agreement of the priority set and the iterator map of a GDSF policy.
use cachemere.Common.{
  ℕ, suc, ◌≡◌, sym, ◌∙◌, none, some, arith, ite, ℕ_discrete, erase_key, ok, Option-cases, inl, inr,
}
use cachemere.Common.Maps.{HashMap, HashMapLaws}
use cachemere.Double.{Double}
use cachemere.LinkedList.{deref}
use cachemere.LinkedList.Keys.{node_of, deref-node_of}
use cachemere.LinkedList.Index.{IsIndexed, erase-IsIndexed}
use cachemere.Eviction.Gdsf.Priorities.{
  PrioritySet, PriorityEntry, key_nodes, emplace, erase_at, erase_at_lem, entry_at, erase-key_nodes,
  deref-key_nodes, deref-emplace, emplace-DistinctKeys, node_of-emplace, emplace-Distinct,
}

module _ {K W N : Type 0} {dec : Discrete K} {h : HashMap K ℕ N} (laws : HashMapLaws dec h) where
  open h use {find, insert_or_assign, erase}

  abbrev pub IsTracked : PrioritySet K W → N → ℕ → Type 0
  IsTracked set nodes next = IsIndexed laws (key_nodes set) nodes next

  -- A new node for a key, which the map then leads to whatever it held for the key before.
  pub emplace-IsTracked :
      (d : Double W) (set : PrioritySet K W) (nodes nodes' : N) (next : ℕ) (key : K)
      (coefficient : W)
      → IsTracked set nodes next
      → find nodes key ≡ none
      → ((j : K) → find nodes' j ≡ ite (dec key j) (some next) (find nodes j))
      → IsTracked
          (emplace d (next, record { key = key; h_coefficient = coefficient }) set)
          nodes'
          (suc next)
  emplace-IsTracked d set nodes nodes' next key coefficient x missing after =
      let node : ℕ × PriorityEntry K W =
        (next, record { key = key; h_coefficient = coefficient }) in
      let unused : deref next (key_nodes set) ≡ none = x.fresh next (omega arith) in
      let absent : node_of dec key (key_nodes set) ≡ none = sym (x.linked key) ∙ missing in
      record {
        ids = emplace-DistinctKeys d node set x.ids unused;
        keys = emplace-Distinct d dec node set x.keys absent;
        linked = λ j. ground (arith, after j, x.linked j, node_of-emplace d dec node set j absent);
        fresh = λ i le. ground (arith, deref-emplace d node set i unused, x.fresh i);
      }

  pub erase-IsTracked :
      (set : PrioritySet K W) (nodes : N) (next it : ℕ) (key : K)
      → IsTracked set nodes next
      → find nodes key ≡ some it
      → (entry : PriorityEntry K W) × (entry_at it set ≡ some entry)
        × (erase_at set it ≡ ok (erase_key ℕ_discrete it set))
        × IsTracked (erase_key ℕ_discrete it set) (erase nodes key) next
  erase-IsTracked set nodes next it key x here =
      let there : deref it (key_nodes set) ≡ some key =
        deref-node_of dec key it (key_nodes set) x.ids (sym (x.linked key) ∙ here) in
      elim (Option-cases (entry_at it set)) [
        | inl nothing ↦ absurd (ground (arith, deref-key_nodes it set, there, nothing))
        | inr (entry, at_it) ↦ (
          entry,
          at_it,
          erase_at_lem it set entry at_it,
          rw (erase-key_nodes it set)
              (erase-IsIndexed laws (key_nodes set) nodes next it key x here),
        )
      ]
