-- ===== src/Threads.antt =====
-- cthread.c, cthread-impl.h and cthread.sysv64.s: cooperative threads on x86-64.
-- `State` is the machine as these files see it: the registers that cthread_asm_switch and its callers
-- agree on, the words of the stacks by address, the thread-specific value that cthread_self reads, and
-- the `struct cthread`s and `struct cthread_main`s by address, where `none` is memory that is not one.
-- Address 0 is NULL. A C function that ends in cthread_asm_switch does not return to its caller: it
-- is a function to the state in which the other thread goes on. `back` is the return address of its
-- call of cthread_asm_switch.
pub mod Call
pub mod Stack
pub mod Switch
pub mod Yield
pub mod Start
pub mod Result
pub mod Running
pub mod Top
pub mod Census
pub mod Moves
pub mod Ends
pub mod Op
pub mod Refine
pub mod Reach
pub mod Exit
pub mod Join
pub mod Resume
pub mod Alloc
pub mod Request
use cthread.Base.{
  ℕ, ◌+◌, ◌-◌, ◌%◌, Bool, true, false, not, Option, none, some, ltb, ◌==◌, if◌then◌else◌, update,
}
use cthread.Word.{ℤ, pos, negsuc, signed32, word_mod}
use cthread.Run.{Run, ok, fault, abort, ◌>>=◌, ◌>>◌, assert}

abbrev pub null : ℕ
null = 0

-- the registers; `pc` is the instruction pointer
pub record Cpu : Type 0 where
  pub rsp : ℕ
  pub rbp : ℕ
  pub rbx : ℕ
  pub r12 : ℕ
  pub r13 : ℕ
  pub r14 : ℕ
  pub r15 : ℕ
  pub rax : ℕ
  pub rdi : ℕ
  pub pc : ℕ

-- `struct cthread_caller`, with the members of its `struct cthread_frame`
pub record Caller : Type 0 where
  pub stack : ℕ
  pub prev : ℕ
  pub return_address : ℕ

-- `struct cthread`
pub record Thread : Type 0 where
  pub stack : ℕ
  pub caller : Caller
  pub main : ℕ
  pub wait_next : ℕ
  pub yield_to : ℕ
  pub exit_to : ℕ
  pub exit_data : ℕ
  pub exit_code : ℕ
  pub finished : Bool

-- `struct cthread_main`; `num_threads` is an int, and a program has fewer than 2^31 live threads
pub record Main : Type 0 where
  pub stack : ℕ
  pub num_threads : ℤ

pub record State : Type 0 where
  pub cpu : Cpu
  pub mem : ℕ → ℕ
  pub self : ℕ
  pub thread : ℕ → Option Thread
  pub main : ℕ → Option Main

-- where a stack pointer is saved: `&c->stack` or `&m->stack`
pub data Slot : Type 0 where
  thread_stack : ℕ → Slot
  main_stack : ℕ → Slot

unfoldable pub load_thread : State → ℕ → Run Thread
load_thread s c = elim (s.thread c) [ none ↦ fault | some t ↦ ok t ]

unfoldable pub load_main : State → ℕ → Run Main
load_main s m = elim (s.main m) [ none ↦ fault | some x ↦ ok x ]

abbrev pub set_record : State → ℕ → Thread → State
set_record s c t = record s { thread = update s.thread c (some t) }

abbrev pub set_main : State → ℕ → Main → State
set_main s m x = record s { main = update s.main m (some x) }

abbrev pub set_thread : ℕ → State → State
set_thread c s = record s { self = c }

abbrev pub cthread_self : State → ℕ
cthread_self s = s.self

-- a push below address 0 is a fault
unfoldable pub push : ℕ → State → Run State
push x s =
    if ltb s.cpu.rsp 8
    then fault
    else ok (record s {
      cpu = record (s.cpu) { rsp = s.cpu.rsp - 8 };
      mem = update s.mem (s.cpu.rsp - 8) x;
    })

-- `*psavestack = sp`
unfoldable pub store_stack : Slot → ℕ → State → Run State
unfolding load_thread load_main
store_stack (thread_stack c) sp s = do
  t ← load_thread s c
  ok (set_record s c (record t { stack = sp }))
store_stack (main_stack m) sp s = do x ← load_main s m; ok (set_main s m (record x { stack = sp }))

-- `*pcaller`, in a thread or in a variable that is not read
unfoldable pub save_caller : Option ℕ → State → Run State
unfolding load_thread
save_caller none s = ok s
save_caller (some c) s = do
  t ← load_thread s c
  ok (
      set_record s c (record t {
        caller = record {
          stack = s.cpu.rsp + 8;
          prev = s.cpu.rbp;
          return_address = s.mem s.cpu.rsp;
        };
      }))

-- from `switch_point` on: the registers from the stack at `load`
unfoldable pub switch_point : ℕ → ℕ → State → State
switch_point udata load s = record s {
  cpu = record (s.cpu) {
    r15 = s.mem load;
    r14 = s.mem (load + 8);
    r13 = s.mem (load + 16);
    r12 = s.mem (load + 24);
    rbx = s.mem (load + 32);
    rbp = s.mem (load + 40);
    pc = s.mem (load + 48);
    rsp = load + 56;
    rdi = udata;
    rax = udata;
  };
}

-- the six registers that a function preserves
unfoldable pub push_registers : State → Run State
push_registers s = do
  s ← push s.cpu.rbp s
  s ← push s.cpu.rbx s
  s ← push s.cpu.r12 s
  s ← push s.cpu.r13 s
  s ← push s.cpu.r14 s
  push s.cpu.r15 s

-- with the return address on the stack
unfoldable pub cthread_asm_switch : ℕ → ℕ → Slot → Option ℕ → State → Run State
cthread_asm_switch udata load save caller s = do
  s ← save_caller caller s
  s ← push_registers s
  s ← store_stack save s.cpu.rsp s
  ok (switch_point udata load s)

-- a call of it from C
abbrev pub call_switch : ℕ → ℕ → ℕ → Slot → Option ℕ → State → Run State
call_switch back udata load save caller s = do
  s ← push back s
  cthread_asm_switch udata load save caller s
