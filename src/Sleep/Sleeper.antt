-- ===== src/Sleep/Sleeper.antt =====
-- cthread-c11threads.h: ct_thrd_sleep.
use cthread.Base.{ℕ, ◌+◌, ◌≡◌, ap, ◌∙◌, true, none, refl, arith, ◌==◌, if◌then◌else◌, update}
use cthread.Run.{ok, Returns, returns, Returns-bind}
use cthread.Heap.{Allocator}
use cthread.Threads.{null, State, thread_stack, set_thread, load_thread, load_main}
use cthread.Threads.Call.{cthread_yield, yield_stack}
use cthread.Threads.Switch.{Switched}
use cthread.Threads.Yield.{do_yield_lem}
use cthread.Sleep.{System, yield_now, ct_thrd_sleep}
use cthread.Sleep.Range.{instant_after, ev_timeout-sleep_ms}
use cthread.Sleep.Alarm.{CanArm, CanYield, Alarmed, cthread_alarm_lem}

-- the threads, with nothing left of the sleep at `rem`
abbrev pub none_remains : ℕ → State → State
none_remains rem s = record s {
  mem = if rem == null then s.mem else update (update s.mem rem 0) (rem + 8) 0;
}

loads_same :
    (rem : ℕ) (s : State) (c : CanYield s) → yield_stack c.thread (none_remains rem s) ≡ ok c.load
unfolding yield_stack load_thread load_main
loads_same rem s c = c.loads

module _ {T : Type 0} (o : ℕ) (a : Allocator) (wakeup third back udata t sec nsec rem : ℕ) where
  -- ct_thrd_sleep in a thread, with a timer that is not armed and a deadline near `o`, writes that
  -- nothing remains of the sleep if it is asked to, arms the timer for the instant that lies 1000 sec +
  -- nsec / 10^6 milliseconds after the clock, modulo 2^32, as the current thread's and with the
  -- argument NULL, and switches to the thread or main function that the current thread yields to.
  pub ct_thrd_sleep_lem :
      (x : System T)
      → CanArm o a third t (instant_after x.loop.now sec nsec) x
      → (c : CanYield x.threads)
      → Returns
          (λ y.
            Alarmed o third t (instant_after x.loop.now sec nsec) x y
            × (y.timer_arg t ≡ null)
            × Switched back udata c.load
                (thread_stack x.threads.self)
                none
                (set_thread c.thread.yield_to (none_remains rem x.threads))
                y.threads)
          (ct_thrd_sleep a wakeup third back udata t sec nsec rem x)
  unfolding ct_thrd_sleep yield_now cthread_yield
  ct_thrd_sleep_lem x arms c = rw (ev_timeout-sleep_ms x.loop sec nsec) (
      let deadline = instant_after x.loop.now sec nsec in
      let z = record x { threads = none_remains rem x.threads } in
      let can : CanArm o a third t deadline z = record {
        ready = arms.ready;
        some_function = arms.some_function;
        new = arms.new;
        near = arms.near;
        small = arms.small;
        supplies = arms.supplies;
      } in
      let own : (t == t) ≡ true = ground arith in
      Returns-bind (cthread_alarm_lem o a wakeup third t deadline null z can) λ y (d, same, args).
        rw same (
          Returns-bind
            (do_yield_lem back udata x.threads.self c.load c.thread (none_remains rem x.threads)
              c.held (loads_same rem x.threads c) c.room)
            λ g w. returns (
              record {
                ready = d.ready;
                items = d.items;
                fns = d.fns;
                clock = d.clock;
                thread = d.thread;
              },
              ap (λ f. f t) args ∙ rw own refl,
              w,
            )))
