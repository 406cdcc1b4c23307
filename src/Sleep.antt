-- ===== src/Sleep.antt =====
-- cthread-evloop.c, cthread-evloop.h, and the same functions in cthread-c11threads.h and main.c:
-- threads that wait for a timer of the event loop.
-- `System` is the threads and the event loop of one thread of the system, and the members `thread` and
-- `arg` of the `struct cthread_timer`s by address. The `struct evtimer` is the first member of such a
-- structure, so the timer has its address, and its heap node and `fn` are in `loop`.
-- ev_alarm is defined with three parameters and called with two: `third` is what it finds for the
-- third one. `wakeup` is the address of timer_wakeup.
pub mod Alarm
pub mod Wake
pub mod Range
pub mod Sleeper
pub mod Steps
use cthread.Base.{ℕ, ◌+◌, ◌*◌, ◌/◌, ◌%◌, ◌==◌, if◌then◌else◌, update}
use cthread.Word.{add32, word_mod}
use cthread.Run.{Run, ok, ◌>>=◌}
use cthread.Heap.{Allocator}
use cthread.Threads.{State, null, cthread_self}
use cthread.Threads.Call.{cthread_call, cthread_yield}
use cthread.Timers.{Loop, ev_timeout, ev_alarm, ev_stop}

pub record System (T : Type 0) : Type 0 where
  pub threads : State
  pub loop : Loop T
  pub timer_thread : ℕ → ℕ
  pub timer_arg : ℕ → ℕ

-- `ms` in ct_thrd_sleep, as a word
unfoldable pub sleep_ms : ℕ → ℕ → ℕ
sleep_ms sec nsec = (sec * 1000 % word_mod + nsec / 1000 / 1000) % word_mod

module _ {T : Type 0} where
  -- a call of ev_alarm
  unfoldable pub arm : Allocator → ℕ → ℕ → ℕ → System T → Run (System T)
  arm a third t wakeup x = do loop ← ev_alarm a t wakeup third x.loop; ok (record x { loop = loop })

  -- `t->timer.fn = &timer_wakeup` and `t->thread = cthread_self()`
  abbrev pub own_timer : ℕ → ℕ → System T → System T
  own_timer wakeup t x = record x {
    loop = record (x.loop) { fn = update x.loop.fn t wakeup };
    timer_thread = update x.timer_thread t (cthread_self x.threads);
  }

  -- to the state in which the thread goes on
  unfoldable pub timer_wakeup : ℕ → ℕ → System T → Run (System T)
  timer_wakeup back t x = do
    threads ← cthread_call back (x.timer_thread t) (x.timer_arg t) x.threads
    ok (record x { threads = threads })

  unfoldable pub cthread_alarm : Allocator → ℕ → ℕ → ℕ → ℕ → ℕ → System T → Run (System T)
  cthread_alarm a wakeup third t deadline arg x =
      let x = record x { timer_arg = update x.timer_arg t arg } in
      arm a third t deadline (own_timer wakeup t x)

  unfoldable pub cthread_stop : ℕ → System T → Run (System T)
  cthread_stop t x = do loop ← ev_stop t x.loop; ok (record x { loop = loop })

  -- a call of cthread_yield
  unfoldable pub yield_now : ℕ → ℕ → System T → Run (System T)
  yield_now back udata x = do
    threads ← cthread_yield back udata x.threads
    ok (record x { threads = threads })

  -- main.c, to its call of cthread_yield; `t` is the address of its variable `ct`, `msecs` the word of
  -- its argument
  unfoldable pub do_sleep : Allocator → ℕ → ℕ → ℕ → ℕ → ℕ → System T → Run (System T)
  unfolding arm
  do_sleep a wakeup third back t msecs x = do
    x ← arm a third t (ev_timeout x.loop msecs) (own_timer wakeup t x)
    yield_now back null x

  -- to its call of cthread_yield, which is called without its argument: `udata` is what it finds. The
  -- times are not negative; `rem` is the address of a `struct timespec` of two words, or NULL.
  unfoldable pub ct_thrd_sleep :
      Allocator → ℕ → ℕ → ℕ → ℕ → ℕ → ℕ → ℕ → ℕ → System T → Run (System T)
  unfolding cthread_alarm arm
  ct_thrd_sleep a wakeup third back udata t sec nsec rem x = do
    let mem = x.threads.mem
    let zeroed = update (update mem rem 0) (rem + 8) 0
    let mem = if rem == null then mem else zeroed
    let x = record x { threads = record (x.threads) { mem = mem } }
    x ← cthread_alarm a wakeup third t (ev_timeout x.loop (sleep_ms sec nsec)) null x
    yield_now back udata x
