-- ===== src/Timers/Alarm.antt =====
-- evloop.c: ev_alarm and ev_stop.
use cthread.Base.{
  ℕ, ◌+◌, ◌^◌, ◌≤◌, ◌<◌, ◌≡◌, ◌≢◌, refl, sym, ◌∙◌, none, some, false, arith, ◌==◌, if◌then◌else◌,
}
use cthread.Word.{IsNear}
use cthread.Run.{ok, Returns, returns, Returns-bind}
use cthread.Heap.{Heap, Allocator, set_index}
use cthread.Heap.Links.{lookup, node-ne, load-ok}
use cthread.Heap.Order.{IsQueue, lookup-node}
use cthread.Heap.Edit.{lookup-some}
use cthread.Heap.Insert.{Supplies, heap_insert_lem}
use cthread.Heap.Rise.{AllAhead}
use cthread.Heap.Remove.{heap_remove_lem}
use cthread.Timers.{Loop, Callback, null, ev_alarm, ev_stop, fire, invoke}
use cthread.Timers.Deadline.{IsReady}

-- an index may be written for a node that is not in the heap
lookup-set_index :
    (h : Heap) (n m : ℕ) → lookup h n ≡ none → lookup (set_index h n 0) m ≡ lookup h m
unfolding lookup
lookup-set_index h n m e = ground arith

set_index-IsQueue :
    {o : ℕ} (h : Heap) (n : ℕ) → IsQueue o h → lookup h n ≡ none → IsQueue o (set_index h n 0)
set_index-IsQueue h n q e = record {
  links = record {
    room = q.links.room;
    small = q.links.small;
    linked = λ i p s. ground (arith, q.links.linked i, node-ne q.links n i e);
  };
  order = q.order;
  window = λ m x f. q.window m x (sym (lookup-set_index h n m e) ∙ f);
}

module _ {S : Type 0} (o : ℕ) where
  -- what ev_alarm leaves: the timer `t` armed for `x`, all else as before
  pub record Armed (e : Loop S) (t x f : ℕ) (g : Loop S) : Type 0 where
    pub ready : IsReady o g
    pub items : (m : ℕ) → lookup g.timers m ≡ (if t == m then some x else lookup e.timers m)
    pub fns : (m : ℕ) → g.fn m ≡ (if t == m then f else e.fn m)
    pub rest : (g.now ≡ e.now) × (g.rest ≡ e.rest)

  -- On a well-formed loop, for a timer that is not in the heap, a function that is not NULL and a
  -- time near `o`, with fewer than 2^30 - 9 timers and an array where `realloc` is asked for one,
  -- ev_alarm returns without a fault. The loop is well formed, the timer is found with its time and
  -- has the function, and all other timers, the clock and the rest of the loop are as before.
  pub ev_alarm_lem :
      (a : Allocator) (e : Loop S) (t x f : ℕ)
      → IsReady o e
      → f ≢ null
      → lookup e.timers t ≡ none
      → IsNear o x
      → e.timers.size + 9 < 2 ^ 30
      → Supplies a e.timers
      → Returns (Armed e t x f) (ev_alarm a t x f e)
  unfolding ev_alarm
  ev_alarm_lem a e t x f r func new near small s =
      Returns-bind (heap_insert_lem a t x r.queue new near small s) λ g i. returns (record {
        ready = record {
          queue = i.queue;
          clock = r.clock;
          set = λ m y e. ground (arith, i.items m, r.set m y);
        };
        items = i.items;
        fns = λ m. refl;
        rest = (refl, refl);
      })

  -- what ev_stop leaves: the timer `t` idle, all else as before; to stop it again does nothing
  pub record Stopped (e : Loop S) (t : ℕ) (g : Loop S) : Type 0 where
    pub ready : IsReady o g
    pub items : (m : ℕ) → lookup g.timers m ≡ (if t == m then none else lookup e.timers m)
    pub fns : (m : ℕ) → g.fn m ≡ (if t == m then null else e.fn m)
    pub rest : (g.now ≡ e.now) × (g.rest ≡ e.rest)
    pub again : ev_stop t g ≡ ok g

  -- On a well-formed loop with all deadlines ahead of `o`, ev_stop of a timer in the heap returns
  -- without a fault. The loop is well formed, the timer is not found and has no function, all other
  -- timers, the clock and the rest of the loop are as before, and a second ev_stop changes nothing.
  pub ev_stop_lem :
      (e : Loop S) (t x : ℕ)
      → IsReady o e
      → AllAhead o e.timers
      → lookup e.timers t ≡ some x
      → Returns (Stopped e t) (ev_stop t e)
  unfolding ev_stop
  ev_stop_lem e t x r ahead armed =
      let (p, s, same, _) = lookup-some r.queue.links t x armed in
      let busy : (e.timers.index t == 0) ≡ false = ground arith in
      rw busy (
        Returns-bind (heap_remove_lem (e.timers.index t) r.queue (λ _ _. ahead) p s) λ h d.
          let gone : lookup h t ≡ none = ground (arith, d.items t) in
          returns (record {
            ready = record {
              queue = set_index-IsQueue h t d.queue gone;
              clock = r.clock;
              set = λ m y f. ground (arith, lookup-set_index h t m gone, d.items m, r.set m y);
            };
            items = λ m. lookup-set_index h t m gone ∙ rw (← same) (d.items m);
            fns = λ m. refl;
            rest = (refl, refl);
            again = ground arith;
          }))

-- A callback that stops its own timer, which ev_step_timers has removed before the call.
abbrev pub stop_self : {S : Type 0} → Callback S
stop_self f t e = ev_stop t e

-- On a well-formed loop with two timers or more, a round of ev_step_timers in which the head's
-- function stops its own timer returns, and a timer other than the head is then no longer found.
pub stop_self-removes_other :
    {S : Type 0} {o : ℕ} (e : Loop S)
    → IsReady o e
    → 1 < e.timers.size
    → Returns
        (λ g.
          (n : ℕ) × ((e.timers.v 1).node ≢ n)
          × (lookup e.timers n ≢ none)
          × (lookup g.timers n ≡ none))
        (fire stop_self e)
unfolding fire invoke ev_stop
stop_self-removes_other {o} e r many =
    let t = (e.timers.v 1).node in
    let head = lookup-node r.queue.links 1 (omega arith) (omega arith) in
    let called : (e.fn t == null) ≡ false = ground (arith, r.set t (e.timers.v 1).value head) in
    let l = r.queue.links in
    let at : e.timers.index t ≡ 1 = l.linked 1 (omega arith) (omega arith) in
    rw (load-ok l 1 (omega arith) (omega arith)) (
      Returns-bind
        (heap_remove_lem {h = e.timers} 1 r.queue (λ p. absurd (omega arith)) (omega arith)
          (omega arith))
        λ h d.
          let stale : h.index t ≡ 1 = ground (arith, d.stale) in
          let more : 1 ≤ h.size = omega (arith, d.size) in
          let n = (h.v 1).node in
          let found : lookup h n ≡ some (h.v 1).value =
            lookup-node d.queue.links 1 (omega arith) more in
          rw (called, stale)
            (Returns-bind
              (heap_remove_lem {h = h} 1 d.queue (λ p. absurd (omega arith)) (omega arith) more)
              λ k c. returns (
                n,
                ground (arith, d.items n),
                ground (arith, d.items n),
                lookup-set_index k t n (ground (arith, c.items t, d.items t))
                    ∙ ground (arith, c.items n),
              )))
