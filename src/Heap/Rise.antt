-- ===== src/Heap/Rise.antt =====
-- heap.c: the first half of heap_remove, which moves the item to the head by way of a time stamp
-- just before the head's.
use cthread.Base.{
  ℕ, ◌+◌, ◌≤◌, ◌<◌, ◌≡◌, ◌≢◌, ◌∙◌, some, arith, ◌==◌, if◌then◌else◌, Bool-cases, inl, inr,
}
use cthread.Run.{Returns, Returns-map}
use cthread.Heap.{Heap, heap_bubble_up}
use cthread.Heap.Links.{lookup}
use cthread.Heap.Order.{key, InWindow, IsQueue, Sifted, Sifted-IsQueue, root_least, lookup-node}
use cthread.Heap.Up.{UpInv, bubble_up_loop_lem}
use cthread.Heap.Count.{sum}
use cthread.Heap.Edit.{
  sum-valued, valued, heap_bubble_up-ok, valued-IsLinked, lookup-valued, lookup-some,
}
use cthread.Word.{sub32, IsNear, sub32-pred, sub32-lt}

-- what the rise of the item of `n` leaves: the others, below it
pub record Raised (o : ℕ) (h : Heap) (n : ℕ) (g : Heap) : Type 0 where
  pub queue : IsQueue o g
  pub size : g.size ≡ h.size
  pub others : (m : ℕ) → n ≢ m → lookup g m ≡ lookup h m
  pub sums : (w : ℕ → ℕ) → sum w g + w (h.v (h.index n)).value ≡ sum w h + w (g.v 1).value
  pub top : (g.v 1).node ≡ n

-- every time stamp in the heap lies ahead of `o`
abbrev pub AllAhead : ℕ → Heap → Type 0
AllAhead o h = (n x : ℕ) → lookup h n ≡ some x → 0 < sub32 x o

module _ {o : ℕ} {h : Heap} (q : IsQueue o h) (ahead : AllAhead o h) (i : ℕ) (p : 1 < i)
    (s : i ≤ h.size) where
  -- the time stamp just before the head's
  abbrev pub early : ℕ
  early = sub32 (h.v 1).value 1

  abbrev lowered : Heap
  lowered = valued h i early

  early-IsNear : IsNear o early × (sub32 early o + 1 ≡ key o h 1)
  early-IsNear =
      let e = lookup-node q.links 1 (omega arith) (omega arith) in
      let near = q.window (h.v 1).node (h.v 1).value e in
      let less = sub32-pred o (h.v 1).value near (ahead _ _ e) in
      (
        record {
          origin = near.origin;
          word = sub32-lt (h.v 1).value 1;
          near = omega (arith, near.near, less);
        },
        less,
      )

  lookup-lowered :
      (m : ℕ) → lookup lowered m ≡ (if (h.v i).node == m then some early else lookup h m)
  lookup-lowered m = lookup-valued q.links i early m (omega arith) s

  lowered-InWindow : InWindow o lowered
  lowered-InWindow m y e = ground (arith, lookup-lowered m, q.window m y, early-IsNear.0)

  lowered-UpInv : UpInv o lowered i
  lowered-UpInv = record {
    positive = omega arith;
    inside = s;
    edges = λ c t u d. ground (arith, q.order c, early-IsNear.1, root_least o h c q.order);
    bridged = λ c t e u. ground (arith, q.order c, q.order i);
  }

  -- whatever else is found is later than the lowered item
  early-lt : (m y : ℕ) → lookup h m ≡ some y → sub32 early o < sub32 y o
  early-lt m y e =
      let (t, u, _, v) = lookup-some q.links m y e in
      ground (arith, early-IsNear.1, root_least o h (h.index m) q.order)

  raised-top : {g : Heap} → Sifted o lowered g → (g.v 1).node ≡ (h.v i).node
  raised-top {g} r = elim (Bool-cases ((g.v 1).node == (h.v i).node)) [
    | inl same ↦ ground arith
    | inr other ↦
        let n = (h.v i).node in
        let found : lookup g n ≡ some early = r.same n ∙ ground (arith, lookup-lowered n) in
        let (t, u, _, v) = lookup-some r.linked n early found in
        let least = root_least o g (g.index n) r.ordered t u in
        let head = lookup-node r.linked 1 (omega arith) (omega (arith, r.size)) in
        let old : lookup h (g.v 1).node ≡ some (g.v 1).value =
          ground (arith, r.same (g.v 1).node, lookup-lowered (g.v 1).node) in
        absurd (ground (arith, early-lt (g.v 1).node (g.v 1).value old))
  ]

  raised-value : {g : Heap} → Sifted o lowered g → (g.v 1).value ≡ early
  raised-value {g} r =
      let n = (h.v i).node in
      let found : lookup g n ≡ some early = r.same n ∙ ground (arith, lookup-lowered n) in
      let head = lookup-node r.linked 1 (omega arith) (omega (arith, r.size)) in
      ground (arith, raised-top r)

  pub rise-Raised : Returns (Raised o h (h.v i).node) (heap_bubble_up h i early)
  rise-Raised = rw (heap_bubble_up-ok h i early (omega (arith, q.links.room))) (
      Returns-map
        (bubble_up_loop_lem (i + 1) o lowered i (omega arith) (valued-IsLinked q.links i early)
          lowered-InWindow lowered-UpInv)
        λ g r. record {
          queue = Sifted-IsQueue lowered-InWindow r;
          size = r.size;
          others = λ m d. ground (arith, r.same m, lookup-lowered m);
          sums = λ w.
              rw (q.links.linked i (omega arith) s, raised-value r)
                (omega (arith, r.sums w, sum-valued w h i early (omega arith) s));
          top = raised-top r;
        })
