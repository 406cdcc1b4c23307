-- ===== src/Timers/Deadline.antt =====
-- evloop.c: next_timeout.
use cthread.Base.{
  ◌≢◌, ℕ, ◌-◌, ◌≤◌, ◌≡◌, some, false, arith, ◌==◌, if◌then◌else◌, Bool-cases, inl, inr,
}
use cthread.Word.{
  ℤ, pos, negsuc, sub32, signed32, is_negative32, is_negative32-sub32, is_positive, IsNear,
}
use cthread.Run.{ok}
use cthread.Heap.{Heap}
use cthread.Heap.Links.{lookup, load-ok}
use cthread.Heap.Order.{key, IsQueue, root_least, lookup-node}
use cthread.Heap.Edit.{lookup-some}
use cthread.Timers.{Loop, null, next_timeout}

signed32-sub32 :
    (o x y : ℕ)
    → IsNear o x
    → IsNear o y
    → (if is_positive (signed32 (sub32 x y)) then signed32 (sub32 x y) else pos 0)
      ≡ pos (sub32 x o - sub32 y o)
unfolding sub32 signed32
signed32-sub32 o x y a b = ground arith

-- The state of the timers: `o` is an instant near every deadline and the clock, and every timer in
-- the heap has a function.
pub record IsReady {S : Type 0} (o : ℕ) (e : Loop S) : Type 0 where
  pub queue : IsQueue o e.timers
  pub clock : IsNear o e.now
  pub set : (t x : ℕ) → lookup e.timers t ≡ some x → e.fn t ≢ null

-- With no timer there is no limit to the wait (-1); else it is the time from the clock to the
-- earliest deadline, which is 0 if that has passed.
abbrev pub wait : {S : Type 0} → ℕ → Loop S → ℤ
wait o e = if e.timers.size == 0 then negsuc 0 else pos (key o e.timers 1 - sub32 e.now o)

-- In a well-formed loop next_timeout returns -1 if there is no timer, and else the time from the
-- clock to the head's deadline, or 0 if the clock has reached that.
pub next_timeout_lem :
    {S : Type 0} {o : ℕ} (e : Loop S) → IsReady o e → next_timeout e ≡ ok (wait o e)
unfolding next_timeout
next_timeout_lem {o} e r = elim (Bool-cases (e.timers.size == 0)) [
  | inl empty ↦ rw empty
  | inr some_timer ↦
      let p : 1 ≤ e.timers.size = ground arith in
      let near = r.queue.window _ _ (lookup-node r.queue.links 1 (omega arith) p) in
      rw (
        some_timer,
        load-ok r.queue.links 1 (omega arith) p,
        signed32-sub32 o (e.timers.v 1).value e.now near r.clock,
      )
]

-- In a well-formed heap of times near `o`, no time that is found is earlier than the head's, by the
-- test that heap_less makes.
head_earliest :
    {o : ℕ} {h : Heap} (n x : ℕ)
    → IsQueue o h
    → lookup h n ≡ some x
    → is_negative32 (sub32 x (h.v 1).value) ≡ false
head_earliest {o} {h} n x q e =
    let (p, s, _, v) = lookup-some q.links n x e in
    let least = root_least o h (h.index n) q.order p s in
    let head = q.window _ _ (lookup-node q.links 1 (omega arith) (omega arith)) in
    rw (is_negative32-sub32 o x (h.v 1).value (q.window n x e) head) (ground arith)
