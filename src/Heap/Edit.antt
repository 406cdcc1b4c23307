-- ===== src/Heap/Edit.antt =====
-- heap.c: the three edits that heap_insert and heap_remove make before they sift.
use cthread.Base.{
  ℕ, suc, ◌+◌, ◌-◌, ◌^◌, ◌≤◌, ◌<◌, ◌≡◌, ◌≢◌, none, some, arith, ◌==◌, if◌then◌else◌, update,
}
use cthread.Heap.{Heap, heap_bubble_up, bubble_up_loop}
use cthread.Heap.Count.{sum, total, total-update, total-update_past, total-last}
use cthread.Heap.Links.{IsLinked, lookup, node-ne}

-- `h->v[i].value = x`
abbrev pub valued : Heap → ℕ → ℕ → Heap
valued h i x = record h { v = update h.v i (record (h.v i) { value = x }) }

pub heap_bubble_up-ok :
    (h : Heap) (i x : ℕ)
    → i < h.cap
    → heap_bubble_up h i x ≡ bubble_up_loop (i + 1) (valued h i x) i
unfolding heap_bubble_up
heap_bubble_up-ok h i x p = ground arith

-- one more item, with the node `n` and whatever value the array has there
abbrev pub placed : Heap → ℕ → Heap
placed h n = record h {
  v = update h.v (1 + h.size) (record (h.v (1 + h.size)) { node = n });
  size = h.size + 1;
  index = update h.index n (1 + h.size);
}

-- the last item in place of the head
abbrev pub headed : Heap → Heap
headed h = record h {
  v = update h.v 1 (h.v h.size);
  size = h.size - 1;
  index = update h.index (h.v h.size).node 1;
}

module _ {h : Heap} (l : IsLinked h) where
  -- a node that is found has an index in the heap
  pub lookup-some :
      (n x : ℕ)
      → lookup h n ≡ some x
      → (0 < h.index n)
        × (h.index n ≤ h.size)
        × ((h.v (h.index n)).node ≡ n)
        × ((h.v (h.index n)).value ≡ x)
  unfolding lookup
  lookup-some n x e = ground arith

  pub valued-IsLinked : (i x : ℕ) → IsLinked (valued h i x)
  valued-IsLinked i x = record {
    room = l.room;
    small = l.small;
    linked = λ k p q. ground (arith, l.linked k);
  }

  pub lookup-valued :
      (i x m : ℕ)
      → 0 < i
      → i ≤ h.size
      → lookup (valued h i x) m ≡ (if (h.v i).node == m then some x else lookup h m)
  unfolding lookup
  lookup-valued i x m p q = ground (arith, l.linked i, l.linked (h.index m))

  pub placed-IsLinked :
      (n : ℕ) → lookup h n ≡ none → h.size + 1 < h.cap → h.size + 1 < 2 ^ 30 → IsLinked (placed h n)
  placed-IsLinked n e room small = record {
    room = λ _. room;
    small = small;
    linked = λ k p q. ground (arith, l.linked k, node-ne l n k e);
  }

  pub lookup-placed : (n m : ℕ) → n ≢ m → lookup h n ≡ none → lookup (placed h n) m ≡ lookup h m
  unfolding lookup
  lookup-placed n m ne e = ground (arith, l.linked (h.index m))

  module _ (many : 1 < h.size) where
    pub headed-IsLinked : IsLinked (headed h)
    headed-IsLinked = record {
      room = λ p. ground (arith, l.room);
      small = ground (arith, l.small);
      linked = λ k p q. ground (arith, l.linked k, l.linked h.size);
    }

    pub lookup-headed :
        (m : ℕ) → lookup (headed h) m ≡ (if (h.v 1).node == m then none else lookup h m)
    unfolding lookup
    lookup-headed m = ground (arith, l.linked 1, l.linked h.size, l.linked (h.index m))

module _ (w : ℕ → ℕ) (h : Heap) where
  pub sum-valued :
      (i x : ℕ) → 0 < i → i ≤ h.size → sum w (valued h i x) + w (h.v i).value ≡ sum w h + w x
  sum-valued i x p q = total-update w h.v i (record (h.v i) { value = x }) h.size p q

  -- the item that heap_insert adds
  pub sum-filled : (n x : ℕ) → sum w (valued (placed h n) (1 + h.size) x) ≡ sum w h + w x
  unfolding total
  sum-filled n x =
      let k = 1 + h.size in
      let e : h.size + 1 ≡ suc h.size = omega arith in
      rw e (
        ground (
          arith,
          total-update_past w h.v k (record (h.v k) { node = n }) h.size,
          total-update_past w (update h.v k (record (h.v k) { node = n })) k
              (record (update h.v k (record (h.v k) { node = n }) k) { value = x }) h.size,
        ))

  pub sum-headed : 1 < h.size → sum w (headed h) + w (h.v 1).value ≡ sum w h
  sum-headed p = omega (
    arith,
    total-last w h.v h.size (omega arith),
    total-update w h.v 1 (h.v h.size) (h.size - 1) (omega arith) (omega arith),
  )
