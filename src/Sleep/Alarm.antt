-- ===== src/Sleep/Alarm.antt =====
-- main.c and cthread-evloop.c: the timer that a thread sets for itself, and its switch away.
use cthread.Base.{
  ℕ, ◌+◌, ◌^◌, ◌≤◌, ◌<◌, ◌≡◌, ◌≢◌, none, some, refl, arith, ◌==◌, if◌then◌else◌, update,
}
use cthread.Word.{IsNear}
use cthread.Run.{ok, Returns, returns, Returns-bind, Returns-map}
use cthread.Heap.{Allocator}
use cthread.Heap.Insert.{Supplies}
use cthread.Heap.Links.{lookup}
use cthread.Threads.{null, Thread, State, thread_stack, set_thread}
use cthread.Threads.Call.{cthread_yield, yield_stack}
use cthread.Threads.Switch.{Switched}
use cthread.Threads.Yield.{do_yield_lem}
use cthread.Timers.{ev_timeout}
use cthread.Timers.Deadline.{IsReady}
use cthread.Timers.Alarm.{ev_alarm_lem}
use cthread.Sleep.{System, arm, own_timer, yield_now, do_sleep, cthread_alarm}

-- a thread that can yield
pub record CanYield (s : State) : Type 0 where
  pub thread : Thread
  pub load : ℕ
  pub held : s.thread s.self ≡ some thread
  pub loads : yield_stack thread s ≡ ok load
  pub room : 56 ≤ s.cpu.rsp

module _ {T : Type 0} where
  -- what an alarm asks: ev_alarm_lem's conditions on the loop, the timer `t` and the deadline
  pub record CanArm (o : ℕ) (a : Allocator) (third t deadline : ℕ) (x : System T) : Type 0 where
    pub ready : IsReady o x.loop
    pub some_function : third ≢ null
    pub new : lookup x.loop.timers t ≡ none
    pub near : IsNear o deadline
    pub small : x.loop.timers.size + 9 < 2 ^ 30
    pub supplies : Supplies a x.loop.timers

  -- The timer `t` is armed for the deadline with the function that ev_alarm has found as its third
  -- argument, and is the current thread's; the other timers are as they were.
  pub record Alarmed (o third t deadline : ℕ) (x y : System T) : Type 0 where
    pub ready : IsReady o y.loop
    pub items :
        (m : ℕ)
        → lookup y.loop.timers m ≡ (if t == m then some deadline else lookup x.loop.timers m)
    pub fns : (m : ℕ) → y.loop.fn m ≡ (if t == m then third else x.loop.fn m)
    pub clock : y.loop.now ≡ x.loop.now
    pub thread : y.timer_thread ≡ update x.timer_thread t x.threads.self

  own_timer-IsReady :
      (o wakeup t : ℕ) (x : System T)
      → IsReady o x.loop
      → lookup x.loop.timers t ≡ none
      → IsReady o (own_timer wakeup t x).loop
  own_timer-IsReady o wakeup t x r new = record {
    queue = r.queue;
    clock = r.clock;
    set = λ m y e. ground (arith, r.set m y e);
  }

  arm_lem :
      (o : ℕ) (a : Allocator) (wakeup third t deadline : ℕ) (x : System T)
      → CanArm o a third t deadline x
      → Returns
          (λ y.
            Alarmed o third t deadline x y × (y.threads ≡ x.threads) × (y.timer_arg ≡ x.timer_arg))
          (arm a third t deadline (own_timer wakeup t x))
  unfolding arm
  arm_lem o a wakeup third t deadline x c =
      let e = (own_timer wakeup t x).loop in
      Returns-bind
        (ev_alarm_lem o a e t deadline third (own_timer-IsReady o wakeup t x c.ready c.new)
          c.some_function c.new c.near c.small c.supplies)
        λ g d. returns (
          record {
            ready = d.ready;
            items = d.items;
            fns = λ m. ground (arith, d.fns m);
            clock = d.rest.0;
            thread = refl;
          },
          refl,
          refl,
        )

  -- cthread_alarm, for a timer that is not armed and a deadline near `o`, returns with the timer armed
  -- for the deadline. Its thread and argument are the current thread and the one given, and the
  -- threads are as they were. Its function is what ev_alarm has found as its third argument, and not
  -- the one that cthread_alarm has set.
  pub cthread_alarm_lem :
      (o : ℕ) (a : Allocator) (wakeup third t deadline arg : ℕ) (x : System T)
      → CanArm o a third t deadline x
      → Returns
          (λ y.
            Alarmed o third t deadline x y
            × (y.threads ≡ x.threads)
            × (y.timer_arg ≡ update x.timer_arg t arg))
          (cthread_alarm a wakeup third t deadline arg x)
  unfolding cthread_alarm
  cthread_alarm_lem o a wakeup third t deadline arg x c =
      let b = record x { timer_arg = update x.timer_arg t arg } in
      let can : CanArm o a third t deadline b = record {
        ready = c.ready;
        some_function = c.some_function;
        new = c.new;
        near = c.near;
        small = c.small;
        supplies = c.supplies;
      } in
      Returns-map (arm_lem o a wakeup third t deadline b can) λ y (d, same, args). (
        record {
          ready = d.ready;
          items = d.items;
          fns = d.fns;
          clock = d.clock;
          thread = d.thread;
        },
        same,
        args,
      )

  -- do_sleep in a thread, with a timer that is not armed and a deadline near `o`, arms the timer for
  -- the time `msecs` after the clock, as the current thread's, and switches to the thread or main
  -- function that the current thread yields to, which gets NULL.
  pub do_sleep_lem :
      (o : ℕ) (a : Allocator) (wakeup third back t msecs : ℕ) (x : System T)
      → CanArm o a third t (ev_timeout x.loop msecs) x
      → (c : CanYield x.threads)
      → Returns
          (λ y.
            Alarmed o third t (ev_timeout x.loop msecs) x y
            × Switched back null c.load
                (thread_stack x.threads.self)
                none
                (set_thread c.thread.yield_to x.threads)
                y.threads)
          (do_sleep a wakeup third back t msecs x)
  unfolding do_sleep yield_now cthread_yield ev_timeout
  do_sleep_lem o a wakeup third back t msecs x arms c =
      Returns-bind (arm_lem o a wakeup third t (ev_timeout x.loop msecs) x arms)
        λ y (d, same, args). rw same (
          Returns-bind
            (do_yield_lem back null x.threads.self c.load c.thread x.threads c.held c.loads c.room)
            λ g w. returns (
              record {
                ready = d.ready;
                items = d.items;
                fns = d.fns;
                clock = d.clock;
                thread = d.thread;
              },
              w,
            ))
