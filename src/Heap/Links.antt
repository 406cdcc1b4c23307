-- ===== src/Heap/Links.antt =====
-- heap.c: the back pointers from the nodes to the array, and the map from nodes to values that the
-- heap stands for.
use cthread.Base.{
  ℕ, ◌^◌, ◌≤◌, ◌<◌, ◌≡◌, Option, none, some, refl, ◌∙◌, ◌≢◌, ◌&&◌, arith, ltb, leb, ◌==◌,
  if◌then◌else◌, update,
}
use cthread.Run.{ok}
use cthread.Heap.{Entry, Heap, load, store, heap_swap, heap_less}
use cthread.Heap.Count.{sum, total-update}
use cthread.Word.{sub32, is_negative32}

-- Every item is stored below `cap`, and its node points back at it.
pub record IsLinked (h : Heap) : Type 0 where
  pub room : 0 < h.size → h.size < h.cap
  pub small : h.size < 2 ^ 30
  pub linked : (i : ℕ) → 0 < i → i ≤ h.size → h.index (h.v i).node ≡ i

-- The value under which a node is in the heap.
unfoldable pub lookup : Heap → ℕ → Option ℕ
lookup h n =
    let i = h.index n in
    if ltb 0 i && leb i h.size && (h.v i).node == n then some (h.v i).value else none

-- heap_swap without its checks
abbrev pub swapped : Heap → ℕ → ℕ → Heap
swapped h a b = record h {
  v = update (update h.v a (h.v b)) b (h.v a);
  index = update (update h.index (h.v a).node b) (h.v b).node a;
}

-- `g` holds the items of `h`, and knows no more of other nodes
pub record SameItems (h g : Heap) : Type 0 where
  pub size : g.size ≡ h.size
  pub cap : g.cap ≡ h.cap
  pub same : (n : ℕ) → lookup g n ≡ lookup h n
  pub others : (n : ℕ) → lookup h n ≡ none → g.index n ≡ h.index n
  pub sums : (w : ℕ → ℕ) → sum w g ≡ sum w h

pub SameItems-refl : (h : Heap) → SameItems h h
SameItems-refl h = record {
  size = refl;
  cap = refl;
  same = λ n. refl;
  others = λ n e. refl;
  sums = λ w. refl;
}

pub SameItems-trans : {h k g : Heap} → SameItems h k → SameItems k g → SameItems h g
SameItems-trans s t = record {
  size = t.size ∙ s.size;
  cap = t.cap ∙ s.cap;
  same = λ n. t.same n ∙ s.same n;
  others = λ n e. t.others n (s.same n ∙ e) ∙ s.others n e;
  sums = λ w. t.sums w ∙ s.sums w;
}

module _ {h : Heap} (l : IsLinked h) where
  pub load-ok : (i : ℕ) → 0 < i → i ≤ h.size → load h i ≡ ok (h.v i)
  unfolding load
  load-ok i p q = ground (arith, l.room)

  pub store-ok :
      (i : ℕ) (e : Entry) → 0 < i → i ≤ h.size → store h i e ≡ ok (record h { v = update h.v i e })
  unfolding store
  store-ok i e p q = ground (arith, l.room)

  pub heap_less-ok :
      (i j : ℕ)
      → 0 < i
      → i ≤ h.size
      → 0 < j
      → j ≤ h.size
      → heap_less h i j ≡ ok (is_negative32 (sub32 (h.v i).value (h.v j).value))
  unfolding heap_less
  heap_less-ok i j pi qi pj qj = rw (load-ok i pi qi, load-ok j pj qj)

  pub heap_swap-ok :
      (i j : ℕ) → 0 < i → i ≤ h.size → 0 < j → j ≤ h.size → heap_swap h i j ≡ ok (swapped h i j)
  unfolding heap_swap
  heap_swap-ok i j pi qi pj qj = ground (arith, l.room)

  pub swapped-IsLinked :
      (i j : ℕ) → 0 < i → i ≤ h.size → 0 < j → j ≤ h.size → IsLinked (swapped h i j)
  swapped-IsLinked i j pi qi pj qj = record {
    room = l.room;
    small = l.small;
    linked = λ k p q. ground (arith, l.linked k, l.linked i, l.linked j);
  }

  pub lookup-swapped :
      (i j n : ℕ) → 0 < i → i ≤ h.size → 0 < j → j ≤ h.size → lookup (swapped h i j) n ≡ lookup h n
  unfolding lookup
  lookup-swapped i j n pi qi pj qj = ground (arith, l.linked (h.index n), l.linked i, l.linked j)

  -- the nodes in the heap are those that are found
  pub node-ne : (n i : ℕ) → lookup h n ≡ none → 0 < i → i ≤ h.size → (h.v i).node ≢ n
  unfolding lookup
  node-ne n i e p q = ground (arith, l.linked i)

  -- a swap writes no index but those of the two items
  pub index-swapped :
      (i j n : ℕ)
      → 0 < i
      → i ≤ h.size
      → 0 < j
      → j ≤ h.size
      → lookup h n ≡ none
      → (swapped h i j).index n ≡ h.index n
  index-swapped i j n pi qi pj qj e = ground (arith, node-ne n i e, node-ne n j e)

  sum-swapped :
      (w : ℕ → ℕ) (i j : ℕ)
      → 0 < i
      → i ≤ h.size
      → 0 < j
      → j ≤ h.size
      → sum w (swapped h i j) ≡ sum w h
  sum-swapped w i j pi qi pj qj = ground (
    arith,
    total-update w h.v i (h.v j) h.size pi qi,
    total-update w (update h.v i (h.v j)) j (h.v i) h.size pj qj,
  )

  pub swapped-SameItems :
      (i j : ℕ) → 0 < i → i ≤ h.size → 0 < j → j ≤ h.size → SameItems h (swapped h i j)
  swapped-SameItems i j pi qi pj qj = record {
    size = refl;
    cap = refl;
    same = λ n. lookup-swapped i j n pi qi pj qj;
    others = λ n e. index-swapped i j n pi qi pj qj e;
    sums = λ w. sum-swapped w i j pi qi pj qj;
  }
