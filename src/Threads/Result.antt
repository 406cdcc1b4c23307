-- ===== src/Threads/Result.antt =====
-- cthread.c: what cthread_start and cthread_main_start return.
use cthread.Base.{ℕ, ◌+◌, ◌≤◌, ◌⊎◌, ◌≡◌, ◌≢◌, some, arith}
use cthread.Run.{ok, Returns, Returns-at}
use cthread.Threads.{null, Thread, Main, State, thread_stack, main_stack}
use cthread.Threads.Call.{cthread_start, cthread_main_start, cthread_yield, place, succ}
use cthread.Threads.Start.{starting, cthread_start_lem, cthread_main_start_lem}
use cthread.Threads.Switch.{Holds}
use cthread.Threads.Yield.{Undisturbed, stack_of-saved, yield_back}

-- what a start asks of the caller's stack and of the new one, at `c`
pub record Fits (stack sz : ℕ) (s : State) : Type 0 where
  pub fits : stack + 64 ≤ place stack sz
  pub room : 56 ≤ s.cpu.rsp
  pub apart : (s.cpu.rsp + 64 ≤ place stack sz) ⊎ (place stack sz + 56 ≤ s.cpu.rsp)

module _ (morestack back entry arg stack sz : ℕ) (x : Main) {s a g : State}
    (r : Fits stack sz s) where
  -- Let a thread start another one, which later yields a reply in a state in which its starter's stack
  -- is as the start left it. The starter goes on after the start with its stack pointer and preserved
  -- registers, and cthread_start returns the reply: it returns the address of the new thread only if
  -- the thread yields that address.
  pub cthread_yield-cthread_start :
      (f : Thread)
      → s.thread s.self ≡ some f
      → s.self ≢ place stack sz
      → s.main f.main ≡ some x
      → cthread_start morestack back entry arg stack sz s ≡ ok a
      → Undisturbed (place stack sz) (thread_stack s.self) s a g
      → (back2 reply : ℕ)
      → Returns
          (λ z.
            (z.cpu ≡ record (s.cpu) { pc = back; rax = reply; rdi = reply }) × (z.self ≡ s.self))
          (cthread_yield back2 reply g)
  cthread_yield-cthread_start f runs other held e u back2 reply =
      let w =
        (Returns-at
          (cthread_start_lem morestack back entry arg stack sz x s f runs other held r.fits r.room
            r.apart)
          e).1 in
      let b = starting morestack s.self (place stack sz) f.main entry x s in
      let slot : Holds (thread_stack s.self) b = (f, ground arith) in
      yield_back r.room w.saved (stack_of-saved (thread_stack s.self) b a slot w) u back2 reply

  -- Let the main function start a thread, which later yields a reply in a state in which the main
  -- function's stack is as the start left it. The main function goes on after the start, and
  -- cthread_main_start returns the reply, whatever the address of the new thread is.
  pub cthread_yield-cthread_main_start :
      (m : ℕ)
      → s.self ≡ null
      → s.main m ≡ some x
      → cthread_main_start morestack back m entry arg stack sz s ≡ ok a
      → Undisturbed (place stack sz) (main_stack m) s a g
      → (back2 reply : ℕ)
      → Returns
          (λ z.
            (z.cpu ≡ record (s.cpu) { pc = back; rax = reply; rdi = reply }) × (z.self ≡ s.self))
          (cthread_yield back2 reply g)
  cthread_yield-cthread_main_start m none_runs held e u back2 reply =
      let w =
        (Returns-at
          (cthread_main_start_lem morestack back entry arg stack sz x s m none_runs held r.fits
            r.room r.apart)
          e).1 in
      let b = starting morestack null (place stack sz) m entry x s in
      let slot : Holds (main_stack m) b =
        (record x { num_threads = succ x.num_threads }, ground arith) in
      yield_back r.room w.saved (stack_of-saved (main_stack m) b a slot w) u back2 reply
