-- ===== src/Heap/Down.antt =====
-- heap.c: heap_bubble_down.
use cthread.Base.{
  ℕ, zero, suc, ◌+◌, ◌-◌, ◌*◌, ◌/◌, ◌^◌, ◌≤◌, ◌<◌, ◌≡◌, ◌≢◌, ◌⊎◌, refl, true, inl, inr, arith, ltb,
  leb, Bool-cases,
}
use cthread.Run.{Returns, returns, Returns-if, Returns-map, Returns-bind}
use cthread.Heap.{Heap, smaller_child, bubble_down_loop}
use cthread.Heap.Links.{IsLinked, swapped, heap_swap-ok, swapped-IsLinked, swapped-SameItems}
use cthread.Heap.Order.{key, InWindow, Sifted, Sifted-refl, Sifted-trans, heap_less-key}

-- only the edges below `i` may be out of order
pub record DownInv (o : ℕ) (h : Heap) (i : ℕ) : Type 0 where
  pub positive : 0 < i
  pub inside : i ≤ h.size
  pub edges : (c : ℕ) → 1 < c → c ≤ h.size → c / 2 ≢ i → key o h (c / 2) ≤ key o h c
  pub bridged : (c : ℕ) → c ≤ h.size → c / 2 ≡ i → 1 < i → key o h (i / 2) ≤ key o h c

-- `m` is the earlier child of `i`
record IsSmallerChild (o : ℕ) (h : Heap) (i m : ℕ) : Type 0 where
  inside : m ≤ h.size
  child : (m ≡ 2 * i) ⊎ (m ≡ 2 * i + 1)
  least : (c : ℕ) → 1 < c → c ≤ h.size → c / 2 ≡ i → key o h m ≤ key o h c

module _ (o : ℕ) (h : Heap) (l : IsLinked h) (w : InWindow o h) (i : ℕ) (pos : 0 < i) where
  smaller_child-IsSmallerChild :
      2 * i ≤ h.size → Returns (IsSmallerChild o h i) (smaller_child h (2 * i))
  unfolding smaller_child
  smaller_child-IsSmallerChild q =
      let fits : ltb (2 * i + 1) (2 ^ 31) ≡ true = ground (arith, l.small) in
      rw fits (
        Returns-if (leb (2 * i + 1) h.size)
          (λ right.
            let r : 2 * i + 1 ≤ h.size = ground arith in
            rw (heap_less-key l w (2 * i + 1) (2 * i) (omega arith) r (omega arith) q)
              (elim (Bool-cases (ltb (key o h (2 * i + 1)) (key o h (2 * i)))) [
                | inl less ↦ rw less (
                    returns (record {
                      inside = r;
                      child = inr refl;
                      least = λ c p s e.
                          let which : (c ≡ 2 * i) ⊎ (c ≡ 2 * i + 1) = omega arith in ground arith;
                    }))
                | inr more ↦ rw more (
                    returns (record {
                      inside = q;
                      child = inl refl;
                      least = λ c p s e.
                          let which : (c ≡ 2 * i) ⊎ (c ≡ 2 * i + 1) = omega arith in ground arith;
                    }))
              ]))
          (λ alone. returns (record {
            inside = q;
            child = inl refl;
            least = λ c p s e. let which : c ≡ 2 * i = ground arith in ground arith;
          })))

  swapped-DownInv :
      (m : ℕ)
      → DownInv o h i
      → IsSmallerChild o h i m
      → key o h m < key o h i
      → DownInv o (swapped h m i) m
  swapped-DownInv m d s below = record {
    positive = omega (arith, s.child);
    inside = s.inside;
    edges = λ c p q r. ground (arith, s.child, d.edges c, d.bridged m, s.least c);
    bridged = λ c p q r. ground (arith, s.child, d.edges c);
  }

-- The loop ends within as many rounds as there are items past `i`, and leaves them in order.
pub bubble_down_loop_lem :
    (k o : ℕ) (h : Heap) (i : ℕ)
    → h.size - i < k
    → IsLinked h
    → InWindow o h
    → DownInv o h i
    → Returns (Sifted o h) (bubble_down_loop k h i)
unfolding bubble_down_loop
bubble_down_loop_lem zero o h i f l w d = absurd (omega arith)
bubble_down_loop_lem (suc k) o h i f l w d =
    let fits : ltb (2 * i) (2 ^ 31) ≡ true = ground (arith, l.small, d.inside) in
    rw fits (
      Returns-if (ltb h.size (2 * i))
        (λ leaf. returns (Sifted-refl l λ c p q. ground (arith, d.edges c)))
        (λ inner.
          Returns-bind (smaller_child-IsSmallerChild o h l w i d.positive (ground arith)) λ m s.
            let p : 0 < m = omega (arith, s.child, d.positive) in
            rw (heap_less-key l w m i p s.inside d.positive d.inside) (
              Returns-if (ltb (key o h m) (key o h i))
                (λ less.
                  let moved = swapped-SameItems l m i p s.inside d.positive d.inside in
                  rw (heap_swap-ok l m i p s.inside d.positive d.inside) (
                    Returns-map
                      (bubble_down_loop_lem k o (swapped h m i) m
                        (omega (arith, s.child, d.positive, d.inside))
                        (swapped-IsLinked l m i p s.inside d.positive d.inside)
                        (λ n x e. w n x (rw (moved.same n) at e))
                        (swapped-DownInv o h l w i d.positive m d s (ground arith)))
                      λ g t. Sifted-trans moved t))
                (λ settled.
                  returns (Sifted-refl l λ c p q. ground (arith, d.edges c, s.least c))))))
