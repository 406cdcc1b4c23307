-- ===== src/Sleep/Wake.antt =====
-- main.c: the function of a thread's timer, once the thread sleeps.
use cthread.Base.{ℕ, ◌≡◌, ◌==◌, ap, ◌∙◌, refl, true, arith}
use cthread.Run.{ok, Returns, returns, Returns-at, Returns-bind}
use cthread.Heap.{Allocator}
use cthread.Threads.{thread_stack, set_thread}
use cthread.Threads.Resume.{Callable, call_back}
use cthread.Threads.Yield.{stack_of-saved}
use cthread.Timers.{ev_timeout}
use cthread.Sleep.{System, timer_wakeup, do_sleep}
use cthread.Sleep.Alarm.{CanArm, CanYield, do_sleep_lem}

module _ {T : Type 0} (o : ℕ) (a : Allocator) (wakeup third back t msecs : ℕ) {x y : System T} where
  -- Let a thread sleep on a timer, and let timer_wakeup be called for that timer in a state in which
  -- the timer is still the thread's and the thread's stack is as the sleep left it. The thread goes on
  -- after its yield in do_sleep: it is current, with its stack pointer and the registers that a
  -- function preserves.
  pub timer_wakeup-do_sleep :
      (g : System T)
      → CanArm o a third t (ev_timeout x.loop msecs) x
      → CanYield x.threads
      → do_sleep a wakeup third back t msecs x ≡ ok y
      → g.timer_thread t ≡ y.timer_thread t
      → Callable x.threads y.threads g.threads
      → (back2 : ℕ)
      → Returns
          (λ z.
            (z.threads.cpu
              ≡ record (x.threads.cpu) { pc = back; rax = g.timer_arg t; rdi = g.timer_arg t })
            × (z.threads.self ≡ x.threads.self))
          (timer_wakeup back2 t g)
  unfolding timer_wakeup
  timer_wakeup-do_sleep g can c e still u back2 =
      let (d, w) = Returns-at (do_sleep_lem o a wakeup third back t msecs x can c) e in
      let own : (t == t) ≡ true = ground arith in
      let mine : g.timer_thread t ≡ x.threads.self = still ∙ ap (λ f. f t) d.thread ∙ rw own refl in
      let stack =
        stack_of-saved (thread_stack x.threads.self) (set_thread c.thread.yield_to x.threads)
          y.threads (c.thread, c.held) w in
      rw mine
        (Returns-bind (call_back c.room w.saved stack u back2 (g.timer_arg t)) λ h r. returns r)
