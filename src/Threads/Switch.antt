-- ===== src/Threads/Switch.antt =====
-- cthread.sysv64.s: what cthread_asm_switch saves and what it restores.
use cthread.Base.{
  ℕ, ◌+◌, ◌-◌, ◌≤◌, ◌<◌, ◌⊎◌, ap, ◌∙◌, ◌≡◌, Option, none, some, ◌==◌, if◌then◌else◌, arith, refl,
  Bool-cases, inl, inr,
}
use cthread.Run.{Returns, returns, Returns-bind}
use cthread.Threads.{
  Cpu, Caller, Thread, Main, State, Slot, thread_stack, main_stack, load_thread, load_main,
  store_stack, save_caller, switch_point, cthread_asm_switch, call_switch,
}
use cthread.Threads.Stack.{
  Suspended, returning, pushed, push-ok, pushed_registers, push_registers-ok, pushed-Suspended,
  pushed-mem,
}

-- a thread with another caller, and with another stack pointer
abbrev pub with_caller : Caller → Option Thread → Option Thread
with_caller f none = none
with_caller f (some t) = some (record t { caller = f })

abbrev pub with_stack : ℕ → Option Thread → Option Thread
with_stack sp none = none
with_stack sp (some t) = some (record t { stack = sp })

abbrev pub with_main_stack : ℕ → Option Main → Option Main
with_main_stack sp none = none
with_main_stack sp (some x) = some (record x { stack = sp })

-- what a switch leaves of the thread at `a`, and of the main at `a`
abbrev pub caller_at : Option ℕ → Caller → ℕ → Option Thread → Option Thread
caller_at none f a t = t
caller_at (some c) f a t = if c == a then with_caller f t else t

abbrev pub stack_at : Slot → ℕ → ℕ → Option Thread → Option Thread
stack_at (thread_stack c) sp a t = if c == a then with_stack sp t else t
stack_at (main_stack m) sp a t = t

abbrev pub main_at : Slot → ℕ → ℕ → Option Main → Option Main
main_at (thread_stack c) sp a x = x
main_at (main_stack m) sp a x = if m == a then with_main_stack sp x else x

-- the slot, and the caller, are in allocated structures
abbrev pub Holds : Slot → State → Type 0
Holds (thread_stack c) s = (t : Thread) × (s.thread c ≡ some t)
Holds (main_stack m) s = (x : Main) × (s.main m ≡ some x)

abbrev pub Known : Option ℕ → (ℕ → Option Thread) → Type 0
Known none threads = Unit
Known (some c) threads = (t : Thread) × (threads c ≡ some t)

record Stored (slot : Slot) (sp : ℕ) (s g : State) : Type 0 where
  cpu : g.cpu ≡ s.cpu
  mem : g.mem ≡ s.mem
  self : g.self ≡ s.self
  thread : (a : ℕ) → g.thread a ≡ stack_at slot sp a (s.thread a)
  main : (a : ℕ) → g.main a ≡ main_at slot sp a (s.main a)

store_stack_lem :
    (slot : Slot) (sp : ℕ) (s : State)
    → Holds slot s
    → Returns (Stored slot sp s) (store_stack slot sp s)
unfolding store_stack load_thread load_main
store_stack_lem (thread_stack c) sp s (t, held) =
    rw (load_thread, held)
      (returns (record {
        cpu = refl;
        mem = refl;
        self = refl;
        thread = λ a. ground arith;
        main = λ a. refl;
      }))
store_stack_lem (main_stack m) sp s (x, held) =
    rw (load_main, held)
      (returns (record {
        cpu = refl;
        mem = refl;
        self = refl;
        thread = λ a. refl;
        main = λ a. ground arith;
      }))

record Framed (caller : Option ℕ) (s g : State) : Type 0 where
  cpu : g.cpu ≡ s.cpu
  mem : g.mem ≡ s.mem
  self : g.self ≡ s.self
  thread :
      (a : ℕ)
      → g.thread a
        ≡ caller_at caller
            (record { stack = s.cpu.rsp + 8; prev = s.cpu.rbp; return_address = s.mem s.cpu.rsp })
            a
            (s.thread a)
  main : g.main ≡ s.main

save_caller_lem :
    (caller : Option ℕ) (s : State)
    → Known caller s.thread
    → Returns (Framed caller s) (save_caller caller s)
unfolding save_caller load_thread
save_caller_lem none s k =
    returns (record { cpu = refl; mem = refl; self = refl; thread = λ a. refl; main = refl })
save_caller_lem (some c) s (t, held) =
    rw (load_thread, held)
      (returns
        (record { cpu = refl; mem = refl; self = refl; thread = λ a. ground arith; main = refl }))

-- what is passed on by a pushed return address and a caller
stack_at-Holds :
    (slot : Slot) (s g : State)
    → Holds slot s
    → ((a : ℕ) (t : Thread) → s.thread a ≡ some t → (u : Thread) × (g.thread a ≡ some u))
    → g.main ≡ s.main
    → Holds slot g
stack_at-Holds (thread_stack c) s g (t, held) keeps same = keeps c t held
stack_at-Holds (main_stack m) s g (x, held) keeps same = (x, rw same held)

pub caller_at-some :
    (caller : Option ℕ) (f : Caller) (a : ℕ) (t : Thread)
    → (u : Thread) × (caller_at caller f a (some t) ≡ some u)
caller_at-some none f a t = (t, refl)
caller_at-some (some c) f a t = elim (Bool-cases (c == a)) [
  | inl here ↦ (record t { caller = f }, rw here refl)
  | inr there ↦ (t, rw there refl)
]

-- The frame that debuggers find for a call of cthread_asm_switch.
abbrev pub frame : ℕ → State → Caller
frame back s = record { stack = s.cpu.rsp; prev = s.cpu.rbp; return_address = back }

-- what a switch does to the state `s` in which C code calls cthread_asm_switch
pub record Switched (back udata load : ℕ) (save : Slot) (caller : Option ℕ) (s g : State)
    : Type 0 where
  pub saved : Suspended g.mem (s.cpu.rsp - 56) (returning back s.cpu)
  pub resumed : (c : Cpu) → Suspended g.mem load c → g.cpu ≡ record c { rax = udata; rdi = udata }
  pub mem : (a : ℕ) → (a + 56 < s.cpu.rsp) ⊎ (s.cpu.rsp ≤ a) → g.mem a ≡ s.mem a
  pub self : g.self ≡ s.self
  pub thread :
      (a : ℕ)
      → g.thread a
        ≡ stack_at save (s.cpu.rsp - 56) a (caller_at caller (frame back s) a (s.thread a))
  pub main : (a : ℕ) → g.main a ≡ main_at save (s.cpu.rsp - 56) a (s.main a)

switch_point-resumed :
    (udata load : ℕ) (s : State) (c : Cpu)
    → Suspended s.mem load c
    → (switch_point udata load s).cpu ≡ record c { rax = udata; rdi = udata }
unfolding switch_point
switch_point-resumed udata load s c w =
    rw (w.rsp, w.pc, w.rbp, w.rbx, w.r12, w.r13, w.r14, w.r15) refl

pushed_registers-mem :
    (s g : State)
    → s.cpu ≡ g.cpu
    → s.mem ≡ g.mem
    → (pushed_registers s).mem ≡ (pushed_registers g).mem
pushed_registers-mem s g c m = rw (c, m) refl

pushed-frame :
    (back : ℕ) (s : State)
    → 8 ≤ s.cpu.rsp
    → (record {
      stack = s.cpu.rsp - 8 + 8;
      prev = s.cpu.rbp;
      return_address = (pushed back s).mem (s.cpu.rsp - 8);
    })
      ≡ frame back s
pushed-frame back s h =
    let top : s.cpu.rsp - 8 + 8 ≡ s.cpu.rsp = omega arith in
    let at : (pushed back s).mem (s.cpu.rsp - 8) ≡ back = ground arith in rw (top, at) refl

pub call_switch_lem :
    (back udata load : ℕ) (save : Slot) (caller : Option ℕ) (s : State)
    → 56 ≤ s.cpu.rsp
    → Holds save s
    → Known caller s.thread
    → Returns (Switched back udata load save caller s) (call_switch back udata load save caller s)
unfolding cthread_asm_switch switch_point
call_switch_lem back udata load save caller s h hold known =
    let s1 = pushed back s in
    let enough : 8 ≤ s.cpu.rsp = omega arith in
    rw (push-ok back s enough) (
      Returns-bind (save_caller_lem caller s1 known) λ s2 f.
        let sp : s2.cpu.rsp ≡ s.cpu.rsp - 8 = ap (λ (c : Cpu). c.rsp) f.cpu in
        let room : 48 ≤ s2.cpu.rsp = omega arith in
        let s3 = pushed_registers s2 in
        let low : s3.cpu.rsp ≡ s.cpu.rsp - 56 = omega arith in
        let threads : (a : ℕ) → s3.thread a ≡ caller_at caller (frame back s) a (s.thread a) = λ a.
          f.thread a ∙ ap (λ x. caller_at caller x a (s.thread a)) (pushed-frame back s enough) in
        let held : Holds save s3 =
          stack_at-Holds save s s3 hold
            (λ a t e.
              let (u, v) = caller_at-some caller (frame back s) a t in
              (u, threads a ∙ ap (caller_at caller (frame back s) a) e ∙ v))
            f.main in
        rw (push_registers-ok s2 room) (
          Returns-bind (store_stack_lem save s3.cpu.rsp s3 held) λ s4 st.
            let m : s4.mem ≡ (pushed_registers s1).mem =
              st.mem ∙ pushed_registers-mem s2 s1 f.cpu f.mem in
            returns (record {
              saved = rw m (pushed-Suspended back s h);
              resumed = λ c w. switch_point-resumed udata load s4 c w;
              mem = λ a o. ap (λ f. f a) m ∙ pushed-mem back a s h o;
              self = st.self ∙ f.self;
              thread = λ a.
                  st.thread a
                  ∙ ap (stack_at save s3.cpu.rsp a) (threads a)
                  ∙ ap (λ x. stack_at save x a (caller_at caller (frame back s) a (s.thread a)))
                      low;
              main = λ a.
                  st.main a
                  ∙ ap (λ x. main_at save s3.cpu.rsp a (x a)) f.main
                  ∙ ap (λ x. main_at save x a (s.main a)) low;
            })))
