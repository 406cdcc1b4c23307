-- ===== src/Threads/Yield.antt =====
-- cthread.c: a call of a thread, and what it finds when the thread yields.
use cthread.Base.{
  ℕ, ◌+◌, ◌-◌, ◌≤◌, ◌<◌, ◌⊎◌, ap, ◌∙◌, ◌≡◌, true, Option, none, some, ◌==◌, if◌then◌else◌, arith,
  refl,
}
use cthread.Run.{ok, Returns, Returns-at, Returns-map}
use cthread.Threads.{
  null, Cpu, Thread, State, Slot, thread_stack, main_stack, load_thread, load_main, set_record,
  set_thread,
}
use cthread.Threads.Call.{cthread_call, cthread_yield, do_yield, yield_stack}
use cthread.Threads.Stack.{Suspended, returning}
use cthread.Threads.Switch.{Holds, Switched, call_switch_lem, frame, caller_at-some, caller_at}

abbrev pub stack_in : Option Thread → Option ℕ
stack_in none = none
stack_in (some t) = some t.stack

-- the stack pointer in a slot
abbrev pub stack_of : State → Slot → Option ℕ
stack_of s (thread_stack c) = stack_in (s.thread c)
stack_of s (main_stack m) = elim (s.main m) [ none ↦ none | some x ↦ some x.stack ]

-- where a call of the thread `t` saves its stack pointer
abbrev pub call_slot : ℕ → Thread → Slot
call_slot from t = if from == null then main_stack t.main else thread_stack from

-- the state of cthread_call before the switch
abbrev pub calling : ℕ → Thread → State → State
calling to t s = set_thread to (set_record s to (record t { yield_to = s.self }))

module _ (back to udata : ℕ) (s : State) (t : Thread) (held : s.thread to ≡ some t) where
  -- A call of a thread from a thread or from the main function, with 56 bytes of stack left, switches
  -- to the called thread, whose stack pointer it loads: it saves its own registers, return address and
  -- stack pointer, and records them as the caller of the thread.
  pub cthread_call_lem :
      56 ≤ s.cpu.rsp
      → Holds (call_slot s.self t) (calling to t s)
      → Returns
          (Switched back udata t.stack (call_slot s.self t) (some to) (calling to t s))
          (cthread_call back to udata s)
  unfolding cthread_call load_thread
  cthread_call_lem room slot =
      rw (load_thread, held)
        (call_switch_lem back udata t.stack (call_slot s.self t) (some to) (calling to t s) room
          slot (record t { yield_to = s.self }, ground arith))

pub Suspended-frame :
    {m g : ℕ → ℕ} {sp : ℕ} {c : Cpu}
    → Suspended m sp c
    → ((x : ℕ) → sp ≤ x → x < sp + 56 → g x ≡ m x)
    → Suspended g sp c
Suspended-frame {sp} w same = record {
  r15 = same sp (omega arith) (omega arith) ∙ w.r15;
  r14 = same (sp + 8) (omega arith) (omega arith) ∙ w.r14;
  r13 = same (sp + 16) (omega arith) (omega arith) ∙ w.r13;
  r12 = same (sp + 24) (omega arith) (omega arith) ∙ w.r12;
  rbx = same (sp + 32) (omega arith) (omega arith) ∙ w.rbx;
  rbp = same (sp + 40) (omega arith) (omega arith) ∙ w.rbp;
  pc = same (sp + 48) (omega arith) (omega arith) ∙ w.pc;
  rsp = w.rsp;
}

-- What others may do between the state `a`, after a switch from the state `s` that saved a stack pointer
-- in the slot, and the state `g`, which switches back: anything that leaves the saved stack pointer and
-- the 56 bytes under the stack pointer of `s`.
pub record Kept (slot : Slot) (s a g : State) : Type 0 where
  pub stack : stack_of g slot ≡ stack_of a slot
  pub saved : (x : ℕ) → s.cpu.rsp ≤ x + 56 → x < s.cpu.rsp → g.mem x ≡ a.mem x
  pub room : 56 ≤ g.cpu.rsp
  pub apart : (g.cpu.rsp + 56 ≤ s.cpu.rsp) ⊎ (s.cpu.rsp + 56 ≤ g.cpu.rsp)

-- In `g` the thread that was called is current, and still yields to its caller.
pub record Undisturbed (to : ℕ) (slot : Slot) (s a g : State) : Type 0 where
  pub current : Thread
  pub self : g.self ≡ to
  pub held : g.thread to ≡ some current
  pub caller : current.yield_to ≡ s.self
  pub target : call_slot s.self current ≡ slot
  pub kept : Kept slot s a g

-- what a switch back finds
pub Kept-Suspended :
    {back : ℕ} {slot : Slot} {s a : State} (g z : State)
    → Kept slot s a g
    → 56 ≤ s.cpu.rsp
    → Suspended a.mem (s.cpu.rsp - 56) (returning back s.cpu)
    → ((x : ℕ) → (x + 56 < g.cpu.rsp) ⊎ (g.cpu.rsp ≤ x) → z.mem x ≡ g.mem x)
    → Suspended z.mem (s.cpu.rsp - 56) (returning back s.cpu)
Kept-Suspended {s} g z k room w same =
    let apart = k.apart in
    Suspended-frame w λ x l h. same x (ground arith) ∙ k.saved x (omega arith) (omega arith)

pub yield_stack-ok :
    (s : State) (f : Thread) (sp : ℕ)
    → stack_of s (call_slot f.yield_to f) ≡ some sp
    → yield_stack f s ≡ ok sp
unfolding yield_stack load_thread load_main
yield_stack-ok s f sp h = ground arith

pub stack_of-saved :
    {back udata load : ℕ} {caller : Option ℕ} (slot : Slot) (s g : State)
    → Holds slot s
    → Switched back udata load slot caller s g
    → stack_of g slot ≡ some (s.cpu.rsp - 56)
stack_of-saved {back} {caller} (thread_stack c) s g (t, held) w =
    let (u, e) = caller_at-some caller (frame back s) c t in
    let self : (c == c) ≡ true = ground arith in
    let at : caller_at caller (frame back s) c (s.thread c) ≡ some u =
      ap (caller_at caller (frame back s) c) held ∙ e in
    rw (w.thread c, self, at) refl
stack_of-saved (main_stack m) s g (x, held) w = ground (arith, w.main m)

-- A thread that yields, with 56 bytes of stack left, switches to the stack pointer of the thread that it
-- yields to, or of its main function, and saves its own registers and stack pointer.
pub do_yield_lem :
    (back udata from load : ℕ) (f : Thread) (s : State)
    → s.thread from ≡ some f
    → yield_stack f s ≡ ok load
    → 56 ≤ s.cpu.rsp
    → Returns
        (Switched back udata load (thread_stack from) none (set_thread f.yield_to s))
        (do_yield back udata from s)
unfolding do_yield load_thread
do_yield_lem back udata from load f s held loaded room =
    rw (load_thread, held, loaded)
      (call_switch_lem back udata load (thread_stack from) none (set_thread f.yield_to s) room
        (f, held) tt)

-- A yield in `g` goes back to the code that saved its registers and stack pointer in `s`.
pub yield_back :
    {back to : ℕ} {slot : Slot} {s a g : State}
    → 56 ≤ s.cpu.rsp
    → Suspended a.mem (s.cpu.rsp - 56) (returning back s.cpu)
    → stack_of a slot ≡ some (s.cpu.rsp - 56)
    → Undisturbed to slot s a g
    → (back2 reply : ℕ)
    → Returns
        (λ z. (z.cpu ≡ record (s.cpu) { pc = back; rax = reply; rdi = reply }) × (z.self ≡ s.self))
        (cthread_yield back2 reply g)
unfolding cthread_yield
yield_back {back} {s} {g} room saved stack u back2 reply =
    let load : yield_stack u.current g ≡ ok (s.cpu.rsp - 56) =
      yield_stack-ok g u.current (s.cpu.rsp - 56)
        (rw (u.caller, u.target) (u.kept.stack ∙ stack)) in
    Returns-map
      (do_yield_lem back2 reply g.self (s.cpu.rsp - 56) u.current g (rw u.self u.held) load
        u.kept.room)
      λ z y. (
        y.resumed (returning back s.cpu) (Kept-Suspended g z u.kept room saved y.mem),
        y.self ∙ u.caller,
      )

module _ (back to udata : ℕ) {s a g : State} {t : Thread} where
  -- Let a thread be called, and let it yield a reply in a state in which its caller's stack is as the
  -- call left it. The yield returns to the caller: the thread that is current, the stack pointer and
  -- the registers that a function preserves are those of the state in which the thread was called, the
  -- program goes on after the call, and the call returns the reply.
  pub cthread_yield-cthread_call :
      s.thread to ≡ some t
      → 56 ≤ s.cpu.rsp
      → Holds (call_slot s.self t) (calling to t s)
      → cthread_call back to udata s ≡ ok a
      → Undisturbed to (call_slot s.self t) s a g
      → (back2 reply : ℕ)
      → Returns
          (λ z.
            (z.cpu ≡ record (s.cpu) { pc = back; rax = reply; rdi = reply }) × (z.self ≡ s.self))
          (cthread_yield back2 reply g)
  cthread_yield-cthread_call held room slot e u back2 reply =
      let w = Returns-at (cthread_call_lem back to udata s t held room slot) e in
      yield_back room w.saved (stack_of-saved (call_slot s.self t) (calling to t s) a slot w) u
        back2 reply
