-- ===== src/Threads/Alloc.antt =====
-- cthread.c: the functions that run on the main stack.
use cthread.Base.{ℕ, ◌+◌, ◌-◌, ◌≤◌, ◌<◌, ◌∙◌, ◌≡◌, ◌≢◌, false, some, ◌==◌, arith, refl}
use cthread.Run.{ok, Returns, returns}
use cthread.Threads.{null, Thread, Main, State, load_thread, load_main, push, set_thread}
use cthread.Threads.Stack.{pushed, push-ok}
use cthread.Threads.Call.{Function, cthread_altstack, cthread_asm_altstack}

-- the state in which a function runs that the current thread calls on the stack at `load`
abbrev pub on_stack : ℕ → ℕ → ℕ → State → State
on_stack next back load s =
    let u = pushed back (set_thread null s) in
    pushed next (pushed u.cpu.rsp (record u { cpu = record (u.cpu) { rsp = load } }))

-- What a function does that follows the calling convention: called in the state `e`, it returns with
-- its return address popped, and the words above it as they were.
pub record Conforms (e g : State) : Type 0 where
  pub rsp : g.cpu.rsp ≡ e.cpu.rsp + 8
  pub mem : (a : ℕ) → e.cpu.rsp < a → g.mem a ≡ e.mem a

module _ (next back : ℕ) (fn : Function) (arg0 arg1 : ℕ) (s : State) where
  -- Let a thread call cthread_altstack with a function that follows the calling convention, with room
  -- on its own stack and on the main one. The function is called with the arguments, on the main stack
  -- and with no current thread; cthread_altstack returns what the function returns, the thread is
  -- current again, and its stack pointer is what it was.
  pub cthread_altstack_lem :
      (t : Thread)
      → (m : Main) → s.self ≢ null
      → s.thread s.self ≡ some t
      → s.main t.main ≡ some m
      → 8 ≤ s.cpu.rsp
      → 16 ≤ m.stack
      → (ret : ℕ) (g : State) → fn arg0 arg1 (on_stack next back m.stack s) ≡ ok (ret, g)
      → Conforms (on_stack next back m.stack s) g
      → Returns
          (λ r. (r.0 ≡ ret) × (r.1.self ≡ s.self) × (r.1.cpu.rsp ≡ s.cpu.rsp) × (r.1.mem ≡ g.mem))
          (cthread_altstack next back fn arg0 arg1 s)
  unfolding cthread_altstack cthread_asm_altstack load_thread load_main
  cthread_altstack_lem t m runs held main room low ret g call c =
      let not_main : (s.self == null) ≡ false = ground arith in
      let s0 = set_thread null s in
      let s1 = pushed back s0 in
      let s2 = record s1 { cpu = record (s1.cpu) { rsp = m.stack } } in
      let s3 = pushed s1.cpu.rsp s2 in
      let p1 : push back s0 ≡ ok s1 = push-ok back s0 room in
      let p2 : push s1.cpu.rsp s2 ≡ ok s3 = push-ok s1.cpu.rsp s2 (omega arith) in
      let p3 : push next s3 ≡ ok (pushed next s3) = push-ok next s3 (omega arith) in
      let sp : g.cpu.rsp ≡ m.stack - 8 = ground arith in
      let old : g.mem (m.stack - 8) ≡ s.cpu.rsp - 8 =
        c.mem (m.stack - 8) (omega arith) ∙ ground arith in
      rw (not_main, load_thread, held, load_main, main, p1, p2, p3, call)
        (returns (refl, refl, rw (sp, old) (omega arith), refl))
