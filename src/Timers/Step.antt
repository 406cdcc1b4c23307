-- ===== src/Timers/Step.antt =====
-- evloop.c: ev_step_timers.
use cthread.Base.{
  ◌==◌, ℕ, zero, suc, ◌≤◌, ◌<◌, ◌≡◌, ◌⊎◌, refl, none, some, true, false, arith, leb, if◌then◌else◌,
  inl, inr,
}
use cthread.Word.{pos, is_zero, sub32}
use cthread.Run.{ok, Returns, returns, Returns-map, Returns-bind, Returns-if}
use cthread.Heap.{Heap}
use cthread.Heap.Count.{sum}
use cthread.Heap.Links.{lookup, load-ok}
use cthread.Heap.Order.{lookup-node, key, root_least}
use cthread.Heap.Edit.{lookup-some}
use cthread.Heap.Remove.{heap_remove_lem}
use cthread.Timers.{null, Loop, Callback, invoke, fire, fire_loop, next_timeout, ev_step_timers}
use cthread.Timers.Deadline.{IsReady, wait, next_timeout_lem}

module _ {S : Type 0} where
  -- 1 for a deadline that the clock has reached, else 0
  abbrev pub is_due : ℕ → Loop S → ℕ → ℕ
  is_due o e x = if leb (sub32 x o) (sub32 e.now o) then 1 else 0

  -- how many timers are due
  abbrev pub due : ℕ → Loop S → ℕ
  due o e = sum (is_due o e) e.timers

  -- every timer in the heap lies ahead of the clock
  abbrev pub NoneDue : ℕ → Loop S → Type 0
  NoneDue o e = (n x : ℕ) → lookup e.timers n ≡ some x → sub32 e.now o < sub32 x o

  -- What the functions of the timers may do, once for each call: they return, keep the loop well
  -- formed, and make no more timers due. They may stop timers, and arm them for later.
  abbrev pub Behaves : ℕ → Callback S → Type 0
  Behaves o call =
      (e : Loop S) (t : ℕ)
      → IsReady o e
      → lookup e.timers t ≡ none
      → Returns (λ g. IsReady o g × (due o g ≤ due o e)) (call (e.fn t) t e)

  -- What the functions of the timers do in a program that keeps `I` between their calls: `J` holds of the
  -- timer taken from the heap, which is due and the earliest, and its function, called then, restores `I`.
  pub record Contract (o : ℕ) (call : Callback S) (I : Loop S → Type 0) (J : ℕ → Loop S → Type 0)
      : Type 0 where
    pub takes :
        (e : Loop S) (h : Heap) (t x : ℕ)
        → I e
        → lookup e.timers t ≡ some x
        → sub32 x o ≤ sub32 e.now o
        → ((n y : ℕ) → lookup e.timers n ≡ some y → sub32 x o ≤ sub32 y o)
        → ((n : ℕ) → lookup h n ≡ (if t == n then none else lookup e.timers n))
        → J t (record e { timers = h })
    pub behaves :
        (e : Loop S) (t : ℕ)
        → IsReady o e
        → lookup e.timers t ≡ none
        → J t e
        → Returns (λ g. IsReady o g × (due o g ≤ due o e) × I g) (call (e.fn t) t e)

  -- the wait is 0 exactly when the earliest timer is due
  due_head :
      (o : ℕ) (e : Loop S)
      → is_zero (wait o e) ≡ true
      → (0 < e.timers.size) × (key o e.timers 1 ≤ sub32 e.now o)
  due_head o e h = ground arith

  earliest :
      {o : ℕ} (e : Loop S)
      → IsReady o e
      → (n y : ℕ) → lookup e.timers n ≡ some y
      → sub32 (e.timers.v 1).value o ≤ sub32 y o
  earliest {o} e r n y f =
      let (p, s, _, v) = lookup-some r.queue.links n y f in
      ground (arith, root_least o e.timers (e.timers.index n) r.queue.order p s)

  none_due : {o : ℕ} (e : Loop S) → IsReady o e → is_zero (wait o e) ≡ false → NoneDue o e
  none_due {o} e r h n x f =
      let (p, s, _, v) = lookup-some r.queue.links n x f in
      ground (arith, root_least o e.timers (e.timers.index n) r.queue.order p s)

module _ {S : Type 0} {o : ℕ} (call : Callback S) {I : Loop S → Type 0} {J : ℕ → Loop S → Type 0}
    (b : Contract o call I J) where
  -- A round takes a timer that is due from the heap, and calls its function.
  fire-due :
      (e : Loop S)
      → IsReady o e
      → 0 < e.timers.size
      → key o e.timers 1 ≤ sub32 e.now o
      → I e
      → Returns (λ g. IsReady o g × (due o g < due o e) × I g) (fire call e)
  unfolding fire invoke
  fire-due e r p d i =
      let l = r.queue.links in
      rw (load-ok l 1 (omega arith) p) (
        Returns-bind
          (heap_remove_lem {h = e.timers} 1 r.queue (λ q. absurd (omega arith)) (omega arith) p)
          λ h c.
            let t = (e.timers.v 1).node in
            let g : Loop S = record e { timers = h } in
            let gone : lookup h t ≡ none = ground (arith, c.items t) in
            let one : is_due o e (e.timers.v (e.timers.index t)).value ≡ 1 =
              ground (arith, l.linked 1) in
            let ready : IsReady o g = record {
              queue = c.queue;
              clock = r.clock;
              set = λ n x f. r.set n x (ground (arith, c.items n));
            } in
            let head = lookup-node l 1 (omega arith) p in
            let called : (e.fn t == null) ≡ false =
              ground (arith, r.set t (e.timers.v 1).value head) in
            rw called (
              Returns-map
                (b.behaves g t ready gone
                  (b.takes e h t (e.timers.v 1).value i head d (earliest e r) c.items))
                λ k (s, n, j). (s, omega (arith, n, c.sums (is_due o e), one), j)))

  fire_loop_lem :
      (k : ℕ) (e : Loop S)
      → due o e < k
      → IsReady o e
      → 0 < e.timers.size
      → key o e.timers 1 ≤ sub32 e.now o
      → I e
      → Returns (λ g. IsReady o g × NoneDue o g × I g) (fire_loop call k e)
  unfolding fire_loop
  fire_loop_lem zero e f r p d i = absurd (omega arith)
  fire_loop_lem (suc k) e f r p d i = Returns-bind (fire-due e r p d i) λ g (s, n, j).
      rw (next_timeout_lem g s) (
        Returns-if (is_zero (wait o g))
          (λ more. let (q, m) = due_head o g more in fire_loop_lem k g (omega arith) s q m j)
          (λ last. returns (s, none_due g s last, j)))

  -- On a well-formed loop, with functions of the timers that keep a contract, ev_step_timers returns
  -- without a fault for every fuel above the number of timers that are due. The loop is well formed, no
  -- timer in the heap is due, and what the contract keeps holds. The result is 0, or nothing is changed
  -- and the result is next_timeout's.
  pub ev_step_timers-keeps :
      (fuel : ℕ) (e : Loop S)
      → IsReady o e
      → due o e < fuel
      → I e
      → Returns
          (λ (z, g).
            IsReady o g × NoneDue o g × I g × ((z ≡ pos 0) ⊎ ((g ≡ e) × (next_timeout e ≡ ok z))))
          (ev_step_timers call fuel e)
  unfolding ev_step_timers
  ev_step_timers-keeps fuel e r f i =
      let at = next_timeout_lem e r in
      rw at (
        Returns-if (is_zero (wait o e))
          (λ run.
            let (p, d) = due_head o e run in
            Returns-bind (fire_loop_lem fuel e f r p d i)
              λ g (s, n, j). returns (s, n, j, inl refl))
          (λ wait. returns (r, none_due e r wait, i, inr (refl, refl))))

module _ {S : Type 0} {o : ℕ} (call : Callback S) (b : Behaves o call) where
  -- On a well-formed loop, with functions of the timers that behave, ev_step_timers returns without a
  -- fault for every fuel above the number of timers that are due. The loop is well formed and no timer
  -- in the heap is due. The result is 0, or nothing is changed and the result is next_timeout's.
  pub ev_step_timers_lem :
      (fuel : ℕ) (e : Loop S)
      → IsReady o e
      → due o e < fuel
      → Returns
          (λ (z, g).
            IsReady o g × NoneDue o g × ((z ≡ pos 0) ⊎ ((g ≡ e) × (next_timeout e ≡ ok z))))
          (ev_step_timers call fuel e)
  ev_step_timers_lem fuel e r f =
      let c : Contract o call (λ e. Unit) (λ t e. Unit) = record {
        takes = λ e h t x i head passed least items. tt;
        behaves = λ e t r gone j. Returns-map (b e t r gone) λ g (s, n). (s, n, tt);
      } in
      Returns-map (ev_step_timers-keeps call c fuel e r f tt) λ (z, g) (s, n, i, out). (s, n, out)
