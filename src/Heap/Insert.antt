-- ===== src/Heap/Insert.antt =====
-- heap.c: heap_insert.
use cthread.Base.{
  ℕ, ◌+◌, ◌*◌, ◌/◌, ◌^◌, ◌≤◌, ◌<◌, ◌≡◌, refl, sym, ◌∙◌, none, some, arith, ltb, leb, ◌==◌,
  if◌then◌else◌, true,
}
use cthread.Run.{Returns, returns, Returns-bind, Returns-map, Returns-if}
use cthread.Heap.{Entry, Heap, Allocator, grow, append, heap_insert, xrealloc, heap_bubble_up}
use cthread.Heap.Links.{IsLinked, lookup}
use cthread.Heap.Order.{InWindow, IsQueue, Sifted-IsQueue}
use cthread.Heap.Up.{UpInv, bubble_up_loop_lem}
use cthread.Heap.Edit.{
  valued, placed, heap_bubble_up-ok, valued-IsLinked, lookup-valued, placed-IsLinked, lookup-placed,
  sum-filled,
}
use cthread.Heap.Count.{sum, total-congr}
use cthread.Word.{IsNear}

-- where the array is full, `realloc` returns a larger one
abbrev pub Supplies : Allocator → Heap → Type 0
Supplies a h =
    h.cap ≤ 1 + h.size → (w : ℕ → Entry) × (a.realloc h.v h.cap (h.cap * 2 + 16) ≡ some w)

-- `g` is `h` with room for one more item
record Roomy (h g : Heap) : Type 0 where
  room : h.size + 1 < g.cap
  size : g.size ≡ h.size
  index : g.index ≡ h.index
  items : (i : ℕ) → 0 < i → i ≤ h.size → g.v i ≡ h.v i

grow-Roomy :
    (a : Allocator) {h : Heap}
    → IsLinked h
    → h.size + 9 < 2 ^ 30
    → Supplies a h
    → Returns (Roomy h) (grow a h)
unfolding grow xrealloc
grow-Roomy a {h} l small s =
    Returns-if (leb h.cap (1 + h.size))
      (λ full.
        let (w, e) = s (ground arith) in
        let fits : ltb (h.cap * 2 + 16) (2 ^ 31) ≡ true = ground arith in
        rw (fits, xrealloc, e)
          (returns (record {
            room = ground arith;
            size = refl;
            index = refl;
            items = λ i p q. ground (arith, l.room, a.keeps h.v w h.cap (h.cap * 2 + 16) i e);
          })))
      (λ fits.
        returns (record { room = ground arith; size = refl; index = refl; items = λ i p q. refl }))

module _ {h g : Heap} (r : Roomy h g) where
  Roomy-IsLinked : IsLinked h → IsLinked g
  Roomy-IsLinked l = record {
    room = λ p. omega (arith, r.room, r.size);
    small = omega (arith, l.small, r.size);
    linked = λ i p q. ground (arith, l.linked i, r.items i, r.size, r.index);
  }

  sum-Roomy : (w : ℕ → ℕ) → sum w g ≡ sum w h
  sum-Roomy w = rw r.size (total-congr w h.v g.v h.size r.items)

  lookup-Roomy : (n : ℕ) → lookup g n ≡ lookup h n
  unfolding lookup
  lookup-Roomy n = rw (r.size, r.index) (ground (arith, r.items (h.index n)))

  Roomy-IsQueue : {o : ℕ} → IsQueue o h → IsQueue o g
  Roomy-IsQueue q = record {
    links = Roomy-IsLinked q.links;
    order = λ c p s. ground (arith, r.items c, r.items (c / 2), q.order c, r.size);
    window = λ n x e. q.window n x (sym (lookup-Roomy n) ∙ e);
  }

append-ok :
    (h : Heap) (n x : ℕ)
    → h.size + 1 < h.cap
    → append h n x ≡ heap_bubble_up (placed h n) (1 + h.size) x
unfolding append
append-ok h n x p = let fits : ltb (1 + h.size) h.cap ≡ true = ground arith in rw fits

-- what heap_insert leaves: one more item, `x` under `n`
pub record Inserted (o : ℕ) (h : Heap) (n x : ℕ) (g : Heap) : Type 0 where
  pub queue : IsQueue o g
  pub size : g.size ≡ h.size + 1
  pub items : (m : ℕ) → lookup g m ≡ (if n == m then some x else lookup h m)
  pub sums : (w : ℕ → ℕ) → sum w g ≡ sum w h + w x

module _ {o : ℕ} {h : Heap} (q : IsQueue o h) (n x : ℕ) (new : lookup h n ≡ none) where
  abbrev filled : Heap
  filled = valued (placed h n) (1 + h.size) x

  lookup-filled :
      h.size + 1 < h.cap
      → h.size + 1 < 2 ^ 30
      → (m : ℕ) → lookup filled m ≡ (if n == m then some x else lookup h m)
  lookup-filled room small m = ground (
    arith,
    lookup-valued (placed-IsLinked q.links n new room small) (1 + h.size) x m (omega arith)
        (omega arith),
    lookup-placed q.links n m,
  )

  filled-UpInv : UpInv o filled (1 + h.size)
  filled-UpInv = record {
    positive = omega arith;
    inside = omega arith;
    edges = λ c p s t. ground (arith, q.order c);
    bridged = λ c p e s. absurd (omega arith);
  }

  append-Inserted :
      IsNear o x
      → h.size + 1 < h.cap
      → h.size + 1 < 2 ^ 30
      → Returns (Inserted o h n x) (append h n x)
  append-Inserted near room small =
      let l = placed-IsLinked q.links n new room small in
      let at = lookup-filled room small in
      let w : InWindow o filled = λ m y e. ground (arith, at m, q.window m y) in
      rw (append-ok h n x room, heap_bubble_up-ok (placed h n) (1 + h.size) x (omega arith))
        (Returns-map
          (bubble_up_loop_lem (1 + h.size + 1) o filled (1 + h.size) (omega arith)
            (valued-IsLinked l (1 + h.size) x) w filled-UpInv)
          λ g s. record {
            queue = Sifted-IsQueue w s;
            size = s.size;
            items = λ m. s.same m ∙ at m;
            sums = λ w. s.sums w ∙ sum-filled w h n x;
          })

-- On a well-formed heap of times near `o`, heap_insert of a time near `o` under a node that is not in
-- the heap, with fewer than 2^30 - 9 items and an array where `realloc` is asked for one, returns
-- without a fault. The heap is then well formed, its size is one more, `n` is found with `x`, every
-- other node as before, and the sum of any weight of the times grows by that of `x`.
pub heap_insert_lem :
    (a : Allocator) {o : ℕ} {h : Heap} (n x : ℕ)
    → IsQueue o h
    → lookup h n ≡ none
    → IsNear o x
    → h.size + 9 < 2 ^ 30
    → Supplies a h
    → Returns (Inserted o h n x) (heap_insert a h n x)
unfolding heap_insert
heap_insert_lem a n x q new near small s = Returns-bind (grow-Roomy a q.links small s) λ g r.
    Returns-map
      (append-Inserted (Roomy-IsQueue r q) n x (lookup-Roomy r n ∙ new) near
        (omega (arith, r.room, r.size)) (omega (arith, r.size)))
      λ k i. record {
        queue = i.queue;
        size = omega (arith, i.size, r.size);
        items = λ m. rw (← lookup-Roomy r m) (i.items m);
        sums = λ w. rw (← sum-Roomy r w) (i.sums w);
      }
