-- ===== src/Tests/Timers.antt =====
-- evloop.c at small inputs, and its theorems there.
use cthread.Base.{ℕ, ◌+◌, ◌<◌, ◌≡◌, ◌≢◌, ◌⊎◌, List, refl, none, arith}
use cthread.Run.{Run, ok, Returns, returns, ◌>>=◌}
use cthread.Word.{ℤ, pos, sub32}
use cthread.Heap.{heap_remove}
use cthread.Heap.Count.{total}
use cthread.Heap.Links.{lookup}
use cthread.Timers.{
  Loop, Callback, invoke, fire, fire_loop, next_timeout, ev_alarm, ev_stop, ev_step_timers,
}
use cthread.Timers.Deadline.{IsReady, wait, next_timeout_lem}
use cthread.Timers.Alarm.{
  Armed, Stopped, ev_alarm_lem, ev_stop_lem, stop_self, stop_self-removes_other,
}
use cthread.Timers.Fired.{Fired, ev_step_timers-Fired}
use cthread.Timers.Step.{Behaves, NoneDue, ev_step_timers_lem}
use cthread.Tests.Heap.{sample, sample-IsQueue, steady}

-- the sample heap at the time `now`; what is beside the timers counts calls
abbrev pub at : ℕ → Loop ℕ
at now = record { timers = sample; now = now; fn = λ t. 1; rest = 0 }

pub at-IsReady : (now : ℕ) → now < 1000 → IsReady 0 (at now)
unfolding sub32
at-IsReady now h = record {
  queue = sample-IsQueue;
  clock = ground arith;
  set = λ t x e. omega arith;
}

-- a function that counts its call
abbrev tick : Callback ℕ
tick f t e = ok (record e { rest = e.rest + 1 })

tick-Behaves : Behaves 0 tick
tick-Behaves e t r gone =
    returns (record { queue = r.queue; clock = r.clock; set = r.set }, omega arith)

abbrev outcome : Run (ℤ × Loop ℕ) → Run (ℤ × ℕ)
outcome r = r >>= λ (z, e). ok (z, e.rest)

-- two of the three timers are due at 160
two_fire : outcome (ev_step_timers tick 3 (at 160)) ≡ ok (pos 0, 2)
unfolding ev_step_timers fire_loop fire invoke next_timeout heap_remove
two_fire = refl

none_fires : outcome (ev_step_timers tick 3 (at 70)) ≡ ok (pos 30, 0)
unfolding ev_step_timers next_timeout
none_fires = refl

next_timeout_lem_example : next_timeout (at 70) ≡ ok (wait 0 (at 70))
next_timeout_lem_example = next_timeout_lem (at 70) (at-IsReady 70 (omega arith))

ev_alarm_lem_example : Returns (Armed 0 (at 70) 40 90 1) (ev_alarm steady 40 90 1 (at 70))
unfolding lookup sub32
ev_alarm_lem_example =
    ev_alarm_lem 0 steady (at 70) 40 90 1 (at-IsReady 70 (omega arith)) (omega arith) refl
      (ground arith) (omega arith) (λ p. absurd (omega arith))

ev_stop_lem_example : Returns (Stopped 0 (at 70) 20) (ev_stop 20 (at 70))
unfolding lookup sub32
ev_stop_lem_example =
    ev_stop_lem 0 (at 70) 20 200 (at-IsReady 70 (omega arith)) (λ n x e. ground arith) refl

stop_self-removes_other_example :
    Returns
      (λ g. (n : ℕ) × (10 ≢ n) × (lookup sample n ≢ none) × (lookup g.timers n ≡ none))
      (fire stop_self (at 120))
stop_self-removes_other_example =
    stop_self-removes_other (at 120) (at-IsReady 120 (omega arith)) (omega arith)

ev_step_timers_lem_example :
    Returns
      (λ (z, g).
        IsReady 0 g × NoneDue 0 g × ((z ≡ pos 0) ⊎ ((g ≡ at 160) × (next_timeout (at 160) ≡ ok z))))
      (ev_step_timers tick 3 (at 160))
unfolding total sub32
ev_step_timers_lem_example =
    ev_step_timers_lem tick tick-Behaves 3 (at 160) (at-IsReady 160 (omega arith)) (ground arith)

ev_step_timers-Fired_example :
    Returns
      (λ r. (ts : List ℕ) × Fired (λ t n. n + 1) 0 (at 160) ts r.1)
      (ev_step_timers tick 3 (at 160))
unfolding total sub32
ev_step_timers-Fired_example =
    ev_step_timers-Fired tick (λ t n. n + 1) (λ e t. refl) 0 (at 160) 3
      (at-IsReady 160 (omega arith)) (ground arith)
