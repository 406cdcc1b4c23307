-- ===== src/Heap/Order.antt =====
-- heap.c: the order of the heap. Seen from an instant `o` that is near every time stamp in the heap,
-- heap_less compares distances from `o`.
use cthread.Base.{ℕ, zero, suc, ◌/◌, ◌≤◌, ◌<◌, ◌≡◌, ◌∙◌, sym, some, arith, ltb}
use cthread.Run.{ok}
use cthread.Heap.{Heap, heap_less}
use cthread.Heap.Links.{IsLinked, lookup, heap_less-ok, SameItems, SameItems-refl, SameItems-trans}
use cthread.Word.{sub32, IsNear, is_negative32-sub32}

abbrev pub key : ℕ → Heap → ℕ → ℕ
key o h i = sub32 (h.v i).value o

-- every time stamp in the heap is near `o`
abbrev pub InWindow : ℕ → Heap → Type 0
InWindow o h = (n x : ℕ) → lookup h n ≡ some x → IsNear o x

-- no item is earlier than its parent
abbrev pub IsOrdered : ℕ → Heap → Type 0
IsOrdered o h = (c : ℕ) → 1 < c → c ≤ h.size → key o h (c / 2) ≤ key o h c

-- `g` holds the items of `h`, linked and in order
pub record Sifted (o : ℕ) (h g : Heap) : Type 0 where
  pub linked : IsLinked g
  pub items : SameItems h g
  pub open items use *
  pub ordered : IsOrdered o g

pub Sifted-refl : {o : ℕ} {h : Heap} → IsLinked h → IsOrdered o h → Sifted o h h
Sifted-refl {h} l s = record { linked = l; items = SameItems-refl h; ordered = s }

pub Sifted-trans : {o : ℕ} {h k g : Heap} → SameItems h k → Sifted o k g → Sifted o h g
Sifted-trans i s = record {
  linked = s.linked;
  items = SameItems-trans i s.items;
  ordered = s.ordered;
}

module _ {h : Heap} (l : IsLinked h) where
  -- an item is found under its node
  pub lookup-node : (i : ℕ) → 0 < i → i ≤ h.size → lookup h (h.v i).node ≡ some (h.v i).value
  unfolding lookup
  lookup-node i p q = ground (arith, l.linked i)

  pub InWindow-item : {o : ℕ} → InWindow o h → (i : ℕ) → 0 < i → i ≤ h.size → IsNear o (h.v i).value
  InWindow-item w i p q = w (h.v i).node (h.v i).value (lookup-node i p q)

  pub heap_less-key :
      {o : ℕ}
      → InWindow o h
      → (i j : ℕ) → 0 < i
      → i ≤ h.size
      → 0 < j
      → j ≤ h.size
      → heap_less h i j ≡ ok (ltb (key o h i) (key o h j))
  heap_less-key {o} w i j pi qi pj qj = rw (
    heap_less-ok l i j pi qi pj qj,
    is_negative32-sub32 o _ _ (InWindow-item w i pi qi) (InWindow-item w j pj qj),
  )

root_least_below :
    (k o : ℕ) (h : Heap) (i : ℕ)
    → IsOrdered o h
    → i < k
    → 0 < i
    → i ≤ h.size
    → key o h 1 ≤ key o h i
root_least_below zero o h i s f p q = absurd (omega arith)
root_least_below (suc k) o h i s f p q = ground (arith, s i, root_least_below k o h (i / 2) s)

-- the head is the earliest item
pub root_least :
    (o : ℕ) (h : Heap) (i : ℕ) → IsOrdered o h → 0 < i → i ≤ h.size → key o h 1 ≤ key o h i
root_least o h i s p q = root_least_below (suc i) o h i s (omega arith) p q

-- a well-formed heap of time stamps near `o`
pub record IsQueue (o : ℕ) (h : Heap) : Type 0 where
  pub links : IsLinked h
  pub order : IsOrdered o h
  pub window : InWindow o h

pub Sifted-IsQueue : {o : ℕ} {h g : Heap} → InWindow o h → Sifted o h g → IsQueue o g
Sifted-IsQueue w s = record {
  links = s.linked;
  order = s.ordered;
  window = λ n x e. w n x (sym (s.same n) ∙ e);
}
