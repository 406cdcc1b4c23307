-- ===== src/Threads/Resume.antt =====
-- cthread.c: a thread that has yielded, and what it finds when it is called again.
use cthread.Base.{ℕ, ◌-◌, ◌≤◌, ◌≡◌, ◌∙◌, ap, sym, some, arith}
use cthread.Run.{ok, Returns, Returns-at, Returns-map}
use cthread.Threads.{Thread, State, thread_stack, set_thread}
use cthread.Threads.Call.{cthread_call, cthread_yield, yield_stack}
use cthread.Threads.Stack.{Suspended, returning}
use cthread.Threads.Switch.{Holds}
use cthread.Threads.Yield.{
  call_slot, calling, cthread_call_lem, stack_in, stack_of, stack_of-saved, do_yield_lem, Kept,
  Kept-Suspended,
}

-- A thread that has switched away in `s`, and whose stack is in `g` as it was left in `a`, may be called.
pub record Callable (s a g : State) : Type 0 where
  pub thread : Thread
  pub held : g.thread s.self ≡ some thread
  pub slot : Holds (call_slot g.self thread) (calling s.self thread g)
  pub kept : Kept (thread_stack s.self) s a g

some-inj : {a b : ℕ} → some a ≡ some b → a ≡ b
some-inj e = ground arith

-- A call in `g` goes on with the code that saved its registers and stack pointer in `s`.
pub call_back :
    {back : ℕ} {s a g : State}
    → 56 ≤ s.cpu.rsp
    → Suspended a.mem (s.cpu.rsp - 56) (returning back s.cpu)
    → stack_of a (thread_stack s.self) ≡ some (s.cpu.rsp - 56)
    → Callable s a g
    → (back2 datum : ℕ)
    → Returns
        (λ z. (z.cpu ≡ record (s.cpu) { pc = back; rax = datum; rdi = datum }) × (z.self ≡ s.self))
        (cthread_call back2 s.self datum g)
call_back {back} {s} {a} {g} room saved stack u back2 datum =
    let load : u.thread.stack ≡ s.cpu.rsp - 56 =
      some-inj (ap stack_in (sym u.held) ∙ u.kept.stack ∙ stack) in
    Returns-map (cthread_call_lem back2 s.self datum g u.thread u.held u.kept.room u.slot) λ z y. (
      y.resumed (returning back s.cpu) (rw load (Kept-Suspended g z u.kept room saved y.mem)),
      y.self,
    )

module _ (back reply load : ℕ) {s a g : State} (f : Thread) where
  -- Let a thread yield, and let it be called with a datum in a state in which its stack is as the yield
  -- left it. The call goes on in the thread that has yielded: it is current, with the stack pointer and
  -- the registers that a function preserves, the program goes on after the yield, and the yield returns
  -- the datum.
  pub cthread_call-cthread_yield :
      s.thread s.self ≡ some f
      → yield_stack f s ≡ ok load
      → 56 ≤ s.cpu.rsp
      → cthread_yield back reply s ≡ ok a
      → Callable s a g
      → (back2 datum : ℕ)
      → Returns
          (λ z.
            (z.cpu ≡ record (s.cpu) { pc = back; rax = datum; rdi = datum }) × (z.self ≡ s.self))
          (cthread_call back2 s.self datum g)
  unfolding cthread_yield
  cthread_call-cthread_yield held loads room e u back2 datum =
      let w = Returns-at (do_yield_lem back reply s.self load f s held loads room) e in
      let stack = stack_of-saved (thread_stack s.self) (set_thread f.yield_to s) a (f, held) w in
      call_back room w.saved stack u back2 datum
