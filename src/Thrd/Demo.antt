-- ===== src/Thrd/Demo.antt =====
-- main.c: the join of the second thread.
use cthread.Base.{ℕ, ◌≡◌, ◌≢◌, refl, none, some, ◌==◌, arith, true, not}
use cthread.Run.{ok, fault, Returns, Returns-map}
use cthread.Threads.{null, Main, State, load_thread}
use cthread.Threads.Call.{Function, call_function, cthread_join}
use cthread.Threads.Result.{Fits}
use cthread.Threads.Start.{cthread_main_start_lem}
use cthread.Thrd.{main_second, join_func, stack_size}

-- the main function can start a thread on the memory at `stack`
pub record MainCanStart (m stack : ℕ) (s : State) : Type 0 where
  pub main : Main
  pub idle : s.self ≡ null
  pub held : s.main m ≡ some main
  pub fits : Fits stack stack_size s

join_null :
    (back p : ℕ) (g : State)
    → p ≡ null
    → g.self ≢ null
    → g.thread null ≡ none
    → join_func back p g ≡ fault
unfolding join_func cthread_join load_thread
join_null back p g nothing runs free =
    let here : not (g.self == null) ≡ true = ground arith in
    rw (nothing, here, load_thread, free) refl

-- If the first thread of main.c has yielded NULL to main, as do_sleep does, and malloc returns memory
-- on which main can start a thread, then the second thread starts in join_func with the argument NULL,
-- and its join reads a member of NULL, which is a fault.
pub join_func-main_second :
    (morestack back back2 : ℕ) (malloc : Function) (m join stack : ℕ) (s s1 : State)
    → s.cpu.rax ≡ null
    → call_function back malloc stack_size 0 s ≡ ok (stack, s1)
    → MainCanStart m stack s1
    → s1.thread null ≡ none
    → (back3 : ℕ)
    → Returns
        (λ g. (g.cpu.pc ≡ join) × (join_func back3 g.cpu.rdi g ≡ fault))
        (main_second morestack back back2 malloc m join s)
unfolding main_second
join_func-main_second morestack back back2 malloc m join stack s s1 yielded call c free back3 =
    let f = c.fits in
    rw (call, yielded)
      (Returns-map
        (cthread_main_start_lem morestack back2 join null stack stack_size c.main s1 m c.idle c.held
          f.fits f.room f.apart)
        λ g w.
          let runs : g.self ≢ null = λ e. absurd (omega (arith, w.0.self, f.fits)) in
          let still : g.thread null ≡ none = ground (arith, w.1.thread null, f.fits) in
          (w.0.pc, join_null back3 g.cpu.rdi g w.0.rdi runs still))
