-- ===== src/Heap/Up.antt =====
-- heap.c: heap_bubble_up.
use cthread.Base.{ℕ, zero, suc, ◌/◌, ◌≤◌, ◌<◌, ◌≡◌, ◌≢◌, arith, ltb, ◌==◌}
use cthread.Run.{Returns, returns, Returns-if, Returns-map}
use cthread.Heap.{Heap, bubble_up_loop}
use cthread.Heap.Links.{IsLinked, swapped, heap_swap-ok, swapped-IsLinked, swapped-SameItems}
use cthread.Heap.Order.{key, InWindow, Sifted, Sifted-refl, Sifted-trans, heap_less-key}

-- only the edge above `i` may be out of order
pub record UpInv (o : ℕ) (h : Heap) (i : ℕ) : Type 0 where
  pub positive : 0 < i
  pub inside : i ≤ h.size
  pub edges : (c : ℕ) → 1 < c → c ≤ h.size → c ≢ i → key o h (c / 2) ≤ key o h c
  pub bridged : (c : ℕ) → c ≤ h.size → c / 2 ≡ i → 1 < i → key o h (i / 2) ≤ key o h c

swapped-UpInv :
    (o : ℕ) (h : Heap) (i : ℕ)
    → UpInv o h i
    → 1 < i
    → key o h i < key o h (i / 2)
    → UpInv o (swapped h i (i / 2)) (i / 2)
swapped-UpInv o h i u p below = record {
  positive = omega arith;
  inside = omega arith;
  edges = λ c q r s. ground (arith, u.edges c, u.edges (i / 2), u.bridged c);
  bridged = λ c q r s. ground (arith, u.edges c, u.edges (i / 2));
}

-- The loop ends within `i` rounds, and leaves the items in order.
pub bubble_up_loop_lem :
    (k o : ℕ) (h : Heap) (i : ℕ)
    → i < k
    → IsLinked h
    → InWindow o h
    → UpInv o h i
    → Returns (Sifted o h) (bubble_up_loop k h i)
unfolding bubble_up_loop
bubble_up_loop_lem zero o h i f l w u = absurd (omega arith)
bubble_up_loop_lem (suc k) o h i f l w u =
    Returns-if (i / 2 == 0) (λ root. returns (Sifted-refl l λ c p q. ground (arith, u.edges c)))
      (λ below.
        let p : 0 < i / 2 = ground arith in
        let q : i / 2 ≤ h.size = omega (arith, u.inside) in
        rw (heap_less-key l w i (i / 2) u.positive u.inside p q) (
          Returns-if (ltb (key o h i) (key o h (i / 2)))
            (λ less.
              let moved = swapped-SameItems l i (i / 2) u.positive u.inside p q in
              rw (heap_swap-ok l i (i / 2) u.positive u.inside p q) (
                Returns-map
                  (bubble_up_loop_lem k o (swapped h i (i / 2)) (i / 2) (omega arith)
                    (swapped-IsLinked l i (i / 2) u.positive u.inside p q)
                    (λ n x e. w n x (rw (moved.same n) at e))
                    (swapped-UpInv o h i u (omega arith) (ground arith)))
                  λ g s. Sifted-trans moved s))
            (λ settled. returns (Sifted-refl l λ c p q. ground (arith, u.edges c)))))
