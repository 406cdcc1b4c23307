-- ===== src/Thrd/Create.antt =====
-- cthread-c11threads.h: what ct_thrd_create returns.
use cthread.Base.{
  ℕ, ◌≡◌, ◌≢◌, ◌⊎◌, ◌∙◌, ap, sym, refl, false, Option, none, some, inl, inr, ◌==◌, arith,
  Bool-cases,
}
use cthread.Word.{ℤ}
use cthread.Run.{Run, ok, fault, abort, ok-inj, ◌>>=◌, Returns, returns, Returns-map, Returns-bind}
use cthread.Threads.{null, Thread, Main, State, thread_stack}
use cthread.Threads.Call.{Function, call_function, cthread_start, cthread_yield, place}
use cthread.Threads.Result.{Fits, cthread_yield-cthread_start}
use cthread.Threads.Start.{StartedFrom, cthread_start_lem}
use cthread.Threads.Yield.{Undisturbed}
use cthread.Thrd.{ct_thrd_create, ct_thrd_created, ct_thrd_nomem, ct_thrd_success, stack_size}

-- a thread that can start another one on the memory at `buf`
pub record CanStart (buf : ℕ) (s : State) : Type 0 where
  pub thread : Thread
  pub main : Main
  pub held : s.thread s.self ≡ some thread
  pub other : s.self ≢ place buf stack_size
  pub counted : s.main thread.main ≡ some main
  pub fits : Fits buf stack_size s

ran :
    {a : State} (r : Run State)
    → ◌>>=◌ {B = Option ℤ × State} r (λ (g : State). ok (none, g)) ≡ ok (none, a)
    → r ≡ ok a
ran fault e = cc
ran abort e = cc
ran (ok g) e = ap (λ (p : Option ℤ × State). ok p.1) (ok-inj e)

module _ (morestack back back2 : ℕ) (malloc : Function) (fn arg buf : ℕ) (s s1 : State) where
  create-some :
      call_function back malloc stack_size 0 s ≡ ok (buf, s1)
      → buf ≢ null
      → ct_thrd_create morestack back back2 malloc fn arg s
        ≡ (cthread_start morestack back2 fn arg buf stack_size s1 >>= λ g. ok (none, g))
  unfolding ct_thrd_create
  create-some call nz = let got : (buf == null) ≡ false = ground arith in rw (call, got) refl

  -- ct_thrd_create returns ct_thrd_nomem in the state that malloc has left, if malloc returns NULL. If
  -- it returns memory on which the current thread can start another one, the new thread runs.
  pub ct_thrd_create_lem :
      call_function back malloc stack_size 0 s ≡ ok (buf, s1)
      → (can : buf ≢ null → CanStart buf s1)
      → Returns
          (λ (r, g).
            ((buf ≡ null) × (r ≡ some ct_thrd_nomem) × (g ≡ s1))
            ⊎ ((nz : buf ≢ null) × (r ≡ none)
                × StartedFrom morestack back2 fn arg s1.self
                    (place buf stack_size)
                    (can nz).thread.main
                    (can nz).main
                    (thread_stack s1.self)
                    s1
                    g))
          (ct_thrd_create morestack back back2 malloc fn arg s)
  unfolding ct_thrd_create
  ct_thrd_create_lem call can = elim (Bool-cases (buf == null)) [
    | inl failed ↦ rw (call, failed) (returns (inl (ground arith, refl, refl)))
    | inr got ↦
        let nz : buf ≢ null = λ e. absurd (ground arith) in
        let c = can nz in
        rw (create-some call nz) (
          Returns-bind
            (cthread_start_lem morestack back2 fn arg buf stack_size c.main s1 c.thread c.held
              c.other c.counted c.fits.fits c.fits.room c.fits.apart)
            λ g w. returns (inr (nz, refl, w)))
  ]

  -- Let ct_thrd_create start a thread, which then yields a reply in a state in which its creator's stack
  -- is as the start left it. ct_thrd_create then returns ct_thrd_success, in the thread that has called
  -- it, and stores the reply at `thr`: it stores the new thread only if the new thread yields itself.
  pub ct_thrd_created-cthread_yield :
      call_function back malloc stack_size 0 s ≡ ok (buf, s1)
      → buf ≢ null
      → CanStart buf s1
      → (a g : State) → ct_thrd_create morestack back back2 malloc fn arg s ≡ ok (none, a)
      → Undisturbed (place buf stack_size) (thread_stack s1.self) s1 a g
      → (back3 reply thr : ℕ)
      → Returns
          (λ z.
            (z.self ≡ s1.self)
            × ((ct_thrd_created thr z).0 ≡ ct_thrd_success)
            × ((ct_thrd_created thr z).1.mem thr ≡ reply))
          (cthread_yield back3 reply g)
  unfolding ct_thrd_created
  ct_thrd_created-cthread_yield call nz c a g e u back3 reply thr =
      let started = ran _ (sym (create-some call nz) ∙ e) in
      Returns-map
        (cthread_yield-cthread_start morestack back2 fn arg buf stack_size c.main c.fits c.thread
          c.held c.other c.counted started u back3 reply)
        λ z (cpu, self). (self, refl, rw cpu (ground arith))
