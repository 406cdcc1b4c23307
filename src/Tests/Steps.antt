-- ===== src/Tests/Steps.antt =====
-- ev_step_timers over the sample timers, each of which is the first thread's of `two_threads`.
use cthread.Base.{ℕ, List, ◌≡◌, ◌⊎◌, refl, arith}
use cthread.Word.{pos, sub32}
use cthread.Run.{Run, ok, Returns, returns}
use cthread.Heap.Count.{total}
use cthread.Threads.{null}
use cthread.Threads.Running.{nil}
use cthread.Timers.{Loop, next_timeout, ev_step_timers}
use cthread.Timers.Deadline.{IsReady}
use cthread.Timers.Step.{NoneDue}
use cthread.Sleep.Steps.{
  Sleepers, Woken, with_threads, resume, Waiting, GivesBack, ev_step_timers-resume,
}
use cthread.Tests.Heap.{sample}
use cthread.Tests.Threads.{registers, worker, two_threads}
use cthread.Tests.Running.{rooted_example}
use cthread.Tests.Timers.{at-IsReady}

abbrev sleeping : Loop (Sleepers ℕ)
sleeping = record {
  timers = sample;
  now = 160;
  fn = λ t. 2;
  rest = record {
    threads = two_threads null 10000;
    timer_thread = λ t. 3000;
    timer_arg = λ t. 0;
    rest = 0;
  };
}

-- the threads go back to the main function at once
abbrev straight_back : Loop (Sleepers ℕ) → Run (Loop (Sleepers ℕ))
straight_back e =
    ok (with_threads e (record (e.rest.threads) { self = null; cpu = registers 10000 }))

straight_back-GivesBack : GivesBack 0 2 straight_back
straight_back-GivesBack e c ready runs owned = returns (
  record { queue = ready.queue; clock = ready.clock; set = ready.set },
  omega arith,
  record {
    idle = record { line = nil; null_free = runs.null_free; rooted = runs.rooted };
    room = omega arith;
    owned = owned;
  },
)

sleeping-IsReady : IsReady 0 sleeping
sleeping-IsReady =
    let r = at-IsReady 160 (omega arith) in
    record { queue = r.queue; clock = r.clock; set = λ t x e. omega arith }

sleeping-Waiting : Waiting 2 sleeping
sleeping-Waiting = record {
  idle = record { line = nil; null_free = refl; rooted = rooted_example };
  room = omega arith;
  owned = λ t x armed. (refl, (worker, refl));
}

ev_step_timers-resume_example :
    Returns
      (λ (z, g).
        IsReady 0 g
        × NoneDue 0 g
        × (Waiting 2 g × ((ts : List ℕ) × Woken 88 0 straight_back sleeping ts g))
        × ((z ≡ pos 0) ⊎ ((g ≡ sleeping) × (next_timeout sleeping ≡ ok z))))
      (ev_step_timers (resume 88 2 straight_back) 3 sleeping)
unfolding total sub32
ev_step_timers-resume_example =
    ev_step_timers-resume 88 2 0 straight_back straight_back-GivesBack sleeping 3 sleeping-IsReady
      (ground arith) sleeping-Waiting
