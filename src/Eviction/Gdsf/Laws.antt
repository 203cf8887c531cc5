-- ===== src/Eviction/Gdsf/Laws.antt =====
-- New and cleared GDSF policies are well formed.
use cachemere.Common.{ℕ, sym, Distinct, subst}
use cachemere.Common.Maps.{HashMap, HashMapLaws}
use cachemere.Filter.Counting.{CountingBloomFilter}
use cachemere.Filter.Counting.Totals.{IsUsable, clear-IsUsable}
use cachemere.LinkedList.Index.{empty-IsIndexed}
use cachemere.Eviction.Gdsf.{EvictionGdsf, victims, initial, clear}
use cachemere.Eviction.Gdsf.Placing.{Inv, victims-node_keys}

module _ {K W N : Type 0} {dec : Discrete K} {h : HashMap K ℕ N} (laws : HashMapLaws dec h) where
  pub victims-IsDistinct : (s : EvictionGdsf K W N) → Inv laws s → Distinct dec (victims s)
  victims-IsDistinct s v = subst (Distinct dec) (sym (victims-node_keys s)) v.tracked.keys

  pub initial-Inv :
      (sketch : CountingBloomFilter) → IsUsable sketch → Inv {W = W} laws (initial h sketch)
  unfolding initial
  initial-Inv sketch usable = record { sketch = usable; tracked = empty-IsIndexed laws 0 }

  pub clear-Inv : (s : EvictionGdsf K W N) → Inv laws s → Inv laws (clear h s)
  unfolding clear
  clear-Inv s v = record {
    sketch = clear-IsUsable s.frequency_sketch v.sketch;
    tracked = empty-IsIndexed laws s.next_node;
  }
