-- ===== src/Timers.antt =====
-- evloop.c: the timers of the event loop, a heap of deadlines in milliseconds modulo 2^32.
-- `Loop` is `struct evloop`: its heap and its clock, and in `rest` the members that evloop.c does
-- not touch. The heap node is the first member of `struct evtimer`, so a timer has the address of
-- its node and `container_of` is the identity; `fn` is the member `fn` of the timers at all
-- addresses. A function pointer is a number, and a call through one is the parameter `call`, which
-- is given the function, its argument and the whole state. `evloop_get()` is the argument.
pub mod Deadline
pub mod Alarm
pub mod Step
pub mod Fired
use cthread.Base.{ℕ, zero, suc, ◌+◌, Bool, true, false, ltb, ◌==◌, if◌then◌else◌, update}
use cthread.Word.{ℤ, pos, negsuc, add32, sub32, signed32, is_positive, is_zero}
use cthread.Run.{Run, ok, fault, ◌>>=◌}
use cthread.Heap.{
  Entry, Heap, Allocator, load, set_index, heap_insert, heap_remove, heap_head, heap_invalid,
}

pub record Loop (S : Type 0) : Type 0 where
  pub timers : Heap
  pub now : ℕ
  pub fn : ℕ → ℕ
  pub rest : S

abbrev pub null : ℕ
null = 0

module _ {S : Type 0} where
  unfoldable pub ev_timeout : Loop S → ℕ → ℕ
  ev_timeout e msecs = add32 e.now msecs

  -- evloop.epoll.h
  unfoldable pub timeout : Loop S → ℕ → ℕ
  timeout e msecs = add32 e.now msecs

  unfoldable pub ev_alarm : Allocator → ℕ → ℕ → ℕ → Loop S → Run (Loop S)
  ev_alarm a t wakeup f e = do
    let e = record e { fn = update e.fn t f }
    timers ← heap_insert a e.timers t wakeup
    ok (record e { timers = timers })

  unfoldable pub ev_stop : ℕ → Loop S → Run (Loop S)
  ev_stop t e =
      let stop : Run (Loop S) = do
        timers ← heap_remove e.timers (e.timers.index t)
        ok (record e { timers = set_index timers t heap_invalid; fn = update e.fn t null })
      in if e.timers.index t == heap_invalid then ok e else stop

  unfoldable pub next_timeout : Loop S → Run ℤ
  unfolding load sub32 signed32
  next_timeout e =
      let ahead : Run ℤ = do
        head ← load e.timers heap_head
        let diff = signed32 (sub32 head.value e.now)
        ok (if is_positive diff then diff else pos 0)
      in if e.timers.size == 0 then ok (negsuc 0) else ahead

-- what a function pointer does: the function, the object it is called for, and the state
abbrev pub Callback : Type 0 → Type 0
Callback S = ℕ → ℕ → Loop S → Run (Loop S)

module _ {S : Type 0} (call : Callback S) where
  -- a call through a function pointer
  unfoldable pub invoke : ℕ → ℕ → Loop S → Run (Loop S)
  invoke f t e = if f == null then fault else call f t e

  -- one round of the `do` of ev_step_timers
  unfoldable pub fire : Loop S → Run (Loop S)
  unfolding load
  fire e = do
    head ← load e.timers heap_head
    timers ← heap_remove e.timers heap_head
    invoke (e.fn head.node) head.node (record e { timers = timers })

  -- the `do ... while` of ev_step_timers, with fuel
  unfoldable pub fire_loop : ℕ → Loop S → Run (Loop S)
  fire_loop zero e = fault
  fire_loop (suc k) e = do
    e ← fire e
    diff ← next_timeout e
    let again = fire_loop k e
    if is_zero diff then again else ok e

  unfoldable pub ev_step_timers : ℕ → Loop S → Run (ℤ × Loop S)
  ev_step_timers fuel e = do
    diff ← next_timeout e
    let run : Run (ℤ × Loop S) = fire_loop fuel e >>= λ e. ok (pos 0, e)
    if is_zero diff then run else ok (diff, e)
