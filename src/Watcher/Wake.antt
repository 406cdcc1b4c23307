-- ===== src/Watcher/Wake.antt =====
-- cthread-evloop.c: fd_wakeup of a thread that has called cthread_recv and yielded.
use cthread.Base.{ℕ, ◌≤◌, ◌≡◌, ◌==◌, true, some, refl, arith, ◌∙◌}
use cthread.Run.{ok, Returns, returns, Returns-bind}
use cthread.Threads.{Thread, State}
use cthread.Threads.Call.{cthread_yield, yield_stack}
use cthread.Threads.Resume.{Callable, cthread_call-cthread_yield}
use cthread.Watcher.{Watching, cthread_recv, fd_wakeup}

-- Let a thread call cthread_recv for a watch and then yield, and let fd_wakeup be called for that watch
-- in a state in which the watch is still the thread's and the thread's stack is as the yield left it. The
-- watch has fd_wakeup as its function, and the thread goes on after its yield, which returns the watch's
-- `arg`: it is current, with its stack pointer and the registers that a function preserves.
pub fd_wakeup-cthread_recv :
    (wakeup w back reply load : ℕ) (x : Watching) (f : Thread) (a : State) (g : Watching)
    → x.threads.thread x.threads.self ≡ some f
    → yield_stack f x.threads ≡ ok load
    → 56 ≤ x.threads.cpu.rsp
    → cthread_yield back reply (cthread_recv wakeup w x).threads ≡ ok a
    → g.watch_thread w ≡ (cthread_recv wakeup w x).watch_thread w
    → Callable x.threads a g.threads
    → (back2 : ℕ)
    → ((cthread_recv wakeup w x).watch_fn w ≡ wakeup)
      × Returns
          (λ z.
            (z.threads.cpu
              ≡ record (x.threads.cpu) { pc = back; rax = g.watch_arg w; rdi = g.watch_arg w })
            × (z.threads.self ≡ x.threads.self))
          (fd_wakeup back2 w g)
unfolding cthread_recv fd_wakeup
fd_wakeup-cthread_recv wakeup w back reply load x f a g held loads room yields still u back2 =
    let own : (w == w) ≡ true = ground arith in
    let mine : g.watch_thread w ≡ x.threads.self = still ∙ rw own refl in
    (
      rw own refl,
      rw mine (
          Returns-bind
            (cthread_call-cthread_yield back reply load {s = x.threads} {a = a} {g = g.threads} f
              held loads room yields u back2 (g.watch_arg w))
            λ h r. returns r),
    )
