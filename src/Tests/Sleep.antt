-- ===== src/Tests/Sleep.antt =====
-- main.c and cthread-evloop.c: the first thread of `two_threads` sleeps, with the timers of the sample.
use cthread.Base.{ℕ, ◌-◌, ◌≡◌, refl, inr, none, arith, ltb, if◌then◌else◌}
use cthread.Word.{pos, add32, sub32}
use cthread.Run.{Run, ok, fault, abort, Returns}
use cthread.Heap.{heap_insert, load}
use cthread.Heap.Links.{lookup}
use cthread.Threads.{
  null, thread_stack, set_thread, push, cthread_asm_switch, push_registers, save_caller,
  store_stack, load_thread, load_main, switch_point,
}
use cthread.Threads.Call.{cthread_yield, do_yield, yield_stack}
use cthread.Threads.Switch.{Switched}
use cthread.Timers.{ev_timeout, ev_alarm, next_timeout}
use cthread.Sleep.{System, arm, yield_now, do_sleep, timer_wakeup, ct_thrd_sleep, sleep_ms}
use cthread.Sleep.Alarm.{CanArm, CanYield, Alarmed}
use cthread.Sleep.Sleeper.{none_remains, ct_thrd_sleep_lem}
use cthread.Sleep.Range.{instant_after, milliseconds, next_timeout-sleep_ms}
use cthread.Sleep.Wake.{timer_wakeup-do_sleep}
use cthread.Tests.Heap.{steady}
use cthread.Tests.Threads.{registers, one_main, worker, two_threads}
use cthread.Tests.Timers.{at, at-IsReady}

abbrev awake : System ℕ
awake = record {
  threads = two_threads 3000 2900;
  loop = at 70;
  timer_thread = λ t. null;
  timer_arg = λ t. 0;
}

can_arm : CanArm 0 steady 1 40 90 awake
unfolding lookup sub32
can_arm = record {
  ready = at-IsReady 70 (omega arith);
  some_function = omega arith;
  new = refl;
  near = ground arith;
  small = omega arith;
  supplies = λ p. absurd (omega arith);
}

can_sleep : CanArm 0 steady 1 40 (ev_timeout awake.loop 20) awake
unfolding ev_timeout add32
can_sleep = can_arm

can_sleep_20 : CanArm 0 steady 1 40 (instant_after awake.loop.now 0 20000000) awake
can_sleep_20 = can_arm

loads_main : yield_stack worker awake.threads ≡ ok 9000
unfolding yield_stack load_thread load_main
loads_main = refl

can_yield : CanYield awake.threads
can_yield = record {
  thread = worker;
  load = 9000;
  held = refl;
  loads = loads_main;
  room = omega arith;
}

-- 20 milliseconds
ct_thrd_sleep_lem_example :
    Returns
      (λ y.
        Alarmed 0 1 40 (instant_after awake.loop.now 0 20000000) awake y
        × (y.timer_arg 40 ≡ null)
        × Switched 88 6 can_yield.load
            (thread_stack 3000)
            none
            (set_thread can_yield.thread.yield_to (none_remains 2700 awake.threads))
            y.threads)
      (ct_thrd_sleep steady 2 1 88 6 40 0 20000000 2700 awake)
ct_thrd_sleep_lem_example =
    ct_thrd_sleep_lem 0 steady 2 1 88 6 40 0 20000000 2700 awake can_sleep_20 can_yield

-- the sleep, after which main goes on
abbrev value_or : System ℕ → Run (System ℕ) → System ℕ
value_or d fault = d
value_or d abort = d
value_or d (ok x) = x

abbrev asleep : System ℕ
asleep = value_or awake (do_sleep steady 2 1 88 40 20 awake)

abbrev due : System ℕ
due = record asleep { threads = record (asleep.threads) { cpu = registers 10000 } }

timer_wakeup-do_sleep_example :
    Returns
      (λ z.
        (z.threads.cpu ≡ record (registers 2900) { pc = 88; rax = 0; rdi = 0 })
        × (z.threads.self ≡ 3000))
      (timer_wakeup 99 40 due)
unfolding do_sleep arm yield_now ev_alarm heap_insert ev_timeout add32 sub32 cthread_yield do_yield
    yield_stack cthread_asm_switch push push_registers save_caller store_stack load_thread load_main
    switch_point
timer_wakeup-do_sleep_example =
    timer_wakeup-do_sleep 0 steady 2 1 88 40 20 {x = awake} {y = asleep} due can_sleep can_yield
      refl refl
      (record {
        thread = record worker { stack = 2844 };
        held = refl;
        slot = (one_main, refl);
        kept = record {
          stack = refl;
          saved = λ x l h. refl;
          room = omega arith;
          apart = inr (omega arith);
        };
      })
      99

-- The sample's first timer is due at 100: it was set at 30 for 70 milliseconds, and 20 later, at 50,
-- the loop waits for the other 50.
next_timeout-sleep_ms_example :
    next_timeout (at 50)
    ≡ ok (
        pos (
          if ltb (milliseconds 0 70000000 - 20) 2147483648
          then milliseconds 0 70000000 - 20
          else 0))
unfolding load sleep_ms ev_timeout add32
next_timeout-sleep_ms_example =
    next_timeout-sleep_ms (at 30) (at 50) (record { value = 100; node = 10 }) 0 70000000 20
      (omega arith) (omega arith) refl refl refl refl
