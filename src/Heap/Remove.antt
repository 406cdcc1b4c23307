-- ===== src/Heap/Remove.antt =====
-- heap.c: heap_remove.
use cthread.Base.{
  ℕ, ◌+◌, ◌-◌, ◌≤◌, ◌<◌, ◌≡◌, sym, ◌∙◌, none, arith, ltb, ◌==◌, if◌then◌else◌, Bool-cases, inl, inr,
  true,
}
use cthread.Run.{ok, Returns, returns, Returns-bind, Returns-map, Returns-if}
use cthread.Heap.{Heap, shrink, last_to_head, heap_bubble_down, heap_remove}
use cthread.Heap.Links.{lookup, load-ok}
use cthread.Heap.Order.{InWindow, IsQueue, Sifted-IsQueue}
use cthread.Heap.Down.{DownInv, bubble_down_loop_lem}
use cthread.Heap.Rise.{AllAhead, rise-Raised}
use cthread.Heap.Count.{sum, total-last}
use cthread.Heap.Edit.{sum-headed, headed, headed-IsLinked, lookup-headed}

-- what a removal leaves: the items but that of `n`
pub record Removed (o : ℕ) (h : Heap) (n : ℕ) (g : Heap) : Type 0 where
  pub queue : IsQueue o g
  pub size : g.size + 1 ≡ h.size
  pub items : (m : ℕ) → lookup g m ≡ (if n == m then none else lookup h m)
  pub sums : (w : ℕ → ℕ) → sum w g + w (h.v (h.index n)).value ≡ sum w h
  pub stale : g.index n ≡ (if h.index n == h.size then h.size else 1)

shrink-ok : (h : Heap) → 0 < h.size → shrink h ≡ ok (record h { size = h.size - 1 })
unfolding shrink
shrink-ok h p = ground arith

last_to_head-ok :
    (h : Heap) → 0 < h.size → h.size < h.cap → last_to_head h ≡ heap_bubble_down (headed h)
unfolding last_to_head
last_to_head-ok h p q =
    let e : 1 + (h.size - 1) ≡ h.size = omega arith in
    let reads : ltb h.size h.cap ≡ true = ground arith in
    let writes : ltb 1 h.cap ≡ true = ground arith in rw (shrink-ok h p, e, reads, writes)

module _ {o : ℕ} {h : Heap} (q : IsQueue o h) where
  -- the last item goes without a move
  shrink-Removed : 0 < h.size → Returns (Removed o h (h.v h.size).node) (shrink h)
  unfolding lookup
  shrink-Removed p = rw (shrink-ok h p) (
      returns (record {
        queue = record {
          links = record {
            room = λ s. ground (arith, q.links.room);
            small = omega (arith, q.links.small);
            linked = λ i s t. q.links.linked i s (omega arith);
          };
          order = λ c s t. q.order c s (omega arith);
          window = λ n x e. q.window n x (ground arith);
        };
        size = omega arith;
        items = λ m. ground (arith, q.links.linked h.size, q.links.linked (h.index m));
        sums = λ w. rw (q.links.linked h.size p (omega arith)) (sym (total-last w h.v h.size p));
        stale = ground (arith, q.links.linked h.size);
      }))

  headed-DownInv : 1 < h.size → DownInv o (headed h) 1
  headed-DownInv p = record {
    positive = omega arith;
    inside = omega arith;
    edges = λ c s t u. ground (arith, q.order c);
    bridged = λ c s t u. absurd (omega arith);
  }

  -- The last item replaces the head and sinks.
  last_to_head-Removed : 1 < h.size → Returns (Removed o h (h.v 1).node) (last_to_head h)
  unfolding heap_bubble_down
  last_to_head-Removed p =
      let at = lookup-headed q.links p in
      let w : InWindow o (headed h) = λ m y e. ground (arith, at m, q.window m y) in
      rw (last_to_head-ok h (omega arith) (q.links.room (omega arith))) (
        Returns-map
          (bubble_down_loop_lem (h.size - 1 + 1) o (headed h) 1 (omega arith)
            (headed-IsLinked q.links p) w (headed-DownInv p))
          λ g s. record {
            queue = Sifted-IsQueue w s;
            size = omega (arith, s.size);
            items = λ m. s.same m ∙ at m;
            sums = λ w.
                rw (q.links.linked 1 (omega arith) (omega arith))
                  (omega (arith, s.sums w, sum-headed w h p));
            stale =
                let gone : lookup (headed h) (h.v 1).node ≡ none =
                  ground (arith, at (h.v 1).node) in
                ground (arith, s.others (h.v 1).node gone, q.links.linked 1, q.links.linked h.size);
          })

-- On a well-formed heap of times near `o`, heap_remove at an index in use returns without a fault, if
-- the index is the first or the last, or else every time lies ahead of `o`. The heap is then well
-- formed, its size is one less, the node that stood at the index is not found, every other node is
-- found as before, the sum of any weight of the times falls by that of the removed one, and the
-- removed node keeps as its index the old size, if that was its index, and 1 if not.
pub heap_remove_lem :
    {o : ℕ} {h : Heap} (i : ℕ)
    → IsQueue o h
    → (1 < i → i < h.size → AllAhead o h)
    → 0 < i
    → i ≤ h.size
    → Returns (Removed o h (h.v i).node) (heap_remove h i)
unfolding heap_remove
heap_remove_lem {o} {h} i q ahead p s =
    Returns-if (i == 1 + h.size - 1)
      (λ last. let e : i ≡ h.size = ground arith in rw e (shrink-Removed q (omega arith)))
      (λ inner.
        let many : 1 < h.size = ground arith in
        elim (Bool-cases (i == 1)) [
          | inl head ↦ rw head (let e : i ≡ 1 = ground arith in rw e (last_to_head-Removed q many))
          | inr below ↦
              let t : 1 < i = ground arith in
              let l = q.links in
              rw (below, load-ok l 1 (omega arith) (omega arith))
                (Returns-bind (rise-Raised q (ahead t (ground arith)) i t s) λ g r.
                  Returns-map (last_to_head-Removed r.queue (omega (arith, r.size))) λ k d. record {
                    queue = d.queue;
                    size = omega (arith, d.size, r.size);
                    items = λ m. ground (arith, d.items m, r.others m, r.top);
                    sums = λ w.
                        let e = r.queue.links.linked 1 (omega arith) (omega (arith, r.size)) in
                        let f : w (g.v (g.index (g.v 1).node)).value ≡ w (g.v 1).value = rw e in
                        omega (arith, d.sums w, r.sums w, f);
                    stale =
                        ground (arith, d.stale, r.top, r.queue.links.linked 1, q.links.linked i);
                  })
        ])
