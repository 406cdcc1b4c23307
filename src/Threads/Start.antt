-- ===== src/Threads/Start.antt =====
-- cthread.c: how a thread starts.
use cthread.Base.{
  ℕ, ◌+◌, ◌-◌, ◌%◌, ◌≤◌, ◌⊎◌, ap, ◌∙◌, ◌≡◌, ◌≢◌, true, not, some, ltb, ◌==◌, arith, refl,
}
use cthread.Run.{ok, Returns, Returns-map}
use cthread.Threads.{
  null, Cpu, Thread, Main, State, Slot, thread_stack, main_stack, load_thread, load_main,
  set_record, set_main, set_thread,
}
use cthread.Threads.Call.{
  cthread_start, cthread_main_start, create_cthread, place, first_frame, zeroed, succ,
}
use cthread.Threads.Yield.{Suspended-frame}
use cthread.Threads.Stack.{Suspended}
use cthread.Threads.Switch.{Switched, call_switch_lem}

-- The registers with which the function of a thread starts: it finds its argument where a function
-- finds its first one, and a return address into __morestack on a stack that is aligned as the calling
-- convention asks, under the structure of the thread.
pub record Started (morestack entry arg c : ℕ) (g : State) : Type 0 where
  pub pc : g.cpu.pc ≡ entry
  pub rdi : g.cpu.rdi ≡ arg
  pub rsp : g.cpu.rsp + 8 ≡ c
  pub aligned : c % 16 ≡ 0
  pub rbp : g.cpu.rbp ≡ c + 16
  pub return_address : g.mem g.cpu.rsp ≡ morestack + 1
  pub self : g.self ≡ c

-- the registers in the first frame of the thread at `c`
abbrev pub first_cpu : ℕ → ℕ → Cpu
first_cpu c entry = record {
  rsp = c - 8;
  rbp = c + 16;
  rbx = 0;
  r12 = 0;
  r13 = 0;
  r14 = 0;
  r15 = 0;
  rax = 0;
  rdi = 0;
  pc = entry;
}

first_frame-Suspended :
    (morestack c entry : ℕ) (mem : ℕ → ℕ)
    → 64 ≤ c
    → Suspended (first_frame morestack c entry mem) (c - 64) (first_cpu c entry)
first_frame-Suspended morestack c entry mem h = record {
  r15 = ground arith;
  r14 = ground arith;
  r13 = ground arith;
  r12 = ground arith;
  rbx = ground arith;
  rbp = ground arith;
  pc = ground arith;
  rsp = omega arith;
}

abbrev pub created : ℕ → ℕ → ℕ → ℕ → Main → State → State
created morestack c m entry x s =
    set_main
      (set_record (record s { mem = first_frame morestack c entry s.mem }) c
        (record zeroed { stack = c - 64; main = m }))
      m (record x { num_threads = succ x.num_threads })

create_cthread-ok :
    (morestack m entry stack sz : ℕ) (x : Main) (s : State)
    → stack + 64 ≤ place stack sz
    → s.main m ≡ some x
    → create_cthread morestack m entry stack sz s
      ≡ ok (place stack sz, created morestack (place stack sz) m entry x s)
unfolding create_cthread load_main
create_cthread-ok morestack m entry stack sz x s room held =
    let fits : not (ltb (place stack sz) (stack + 64)) ≡ true = ground arith in
    rw (fits, load_main, held) refl

-- the state before the switch to the thread that is made at `c`
abbrev pub started : ℕ → ℕ → ℕ → Thread
started from c m = record zeroed { stack = c - 64; main = m; yield_to = from }

abbrev pub starting : ℕ → ℕ → ℕ → ℕ → ℕ → Main → State → State
starting morestack from c m entry x s =
    set_thread c (set_record (created morestack c m entry x s) c (started from c m))

-- what a start of the thread at `c` does
abbrev pub StartedFrom : ℕ → ℕ → ℕ → ℕ → ℕ → ℕ → ℕ → Main → Slot → State → State → Type 0
StartedFrom morestack back entry arg from c m x save s g =
    Started morestack entry arg c g
    × Switched back arg (c - 64) save (some c) (starting morestack from c m entry x s) g

module _ (morestack back entry arg from m c : ℕ) (x : Main) (s : State) where
  first_switch :
      (save : Slot) (g : State)
      → 64 ≤ c
      → c % 16 ≡ 0
      → 56 ≤ s.cpu.rsp
      → (s.cpu.rsp + 64 ≤ c) ⊎ (c + 56 ≤ s.cpu.rsp)
      → Switched back arg (c - 64) save (some c) (starting morestack from c m entry x s) g
      → StartedFrom morestack back entry arg from c m x save s g
  first_switch save g low aligned room apart y =
      let first = first_frame-Suspended morestack c entry s.mem low in
      let kept = Suspended-frame first λ a l h. y.mem a (ground arith) in
      let cpu = y.resumed (first_cpu c entry) kept in
      let rsp : g.cpu.rsp ≡ c - 8 = ap (λ (c : Cpu). c.rsp) cpu in
      (
        record {
          pc = ap (λ (c : Cpu). c.pc) cpu;
          rdi = ap (λ (c : Cpu). c.rdi) cpu;
          rsp = ground arith;
          aligned = aligned;
          rbp = ap (λ (c : Cpu). c.rbp) cpu;
          return_address = rw rsp (y.mem (c - 8) (ground arith) ∙ ground arith);
          self = y.self;
        },
        y,
      )

module _ (morestack back entry arg stack sz : ℕ) (x : Main) (s : State) where
  abbrev c : ℕ
  c = place stack sz

  -- From the main function, with room on its stack and on the new one, and the two apart,
  -- cthread_main_start counts a new thread, saves the main function's registers in its
  -- `struct cthread_main` and starts the thread's function.
  pub cthread_main_start_lem :
      (m : ℕ)
      → s.self ≡ null
      → s.main m ≡ some x
      → stack + 64 ≤ place stack sz
      → 56 ≤ s.cpu.rsp
      → (s.cpu.rsp + 64 ≤ place stack sz) ⊎ (place stack sz + 56 ≤ s.cpu.rsp)
      → Returns
          (StartedFrom morestack back entry arg null (place stack sz) m x (main_stack m) s)
          (cthread_main_start morestack back m entry arg stack sz s)
  unfolding cthread_main_start load_thread
  cthread_main_start_lem m none_runs held fits room apart =
      let made = create_cthread-ok morestack m entry stack sz x s fits held in
      let self : (c == c) ≡ true = ground arith in
      let main_runs : (s.self == null) ≡ true = ground arith in
      rw (main_runs, made, load_thread, self)
        (Returns-map
          (call_switch_lem back arg (c - 64) (main_stack m) (some c)
            (starting morestack null c m entry x s) room
            (record x { num_threads = succ x.num_threads }, ground arith)
            (started null c m, ground arith))
          λ g y.
            first_switch morestack back entry arg null m c x s (main_stack m) g (omega arith)
              (omega arith) room apart y)

  -- From a thread, with room on its stack and on the new one, and the two apart, cthread_start counts
  -- a new thread, saves the current thread's registers, and starts the new thread's function.
  pub cthread_start_lem :
      (f : Thread)
      → s.thread s.self ≡ some f
      → s.self ≢ place stack sz
      → s.main f.main ≡ some x
      → stack + 64 ≤ place stack sz
      → 56 ≤ s.cpu.rsp
      → (s.cpu.rsp + 64 ≤ place stack sz) ⊎ (place stack sz + 56 ≤ s.cpu.rsp)
      → Returns
          (StartedFrom morestack back entry arg s.self
            (place stack sz)
            f.main
            x
            (thread_stack s.self)
            s)
          (cthread_start morestack back entry arg stack sz s)
  unfolding cthread_start load_thread
  cthread_start_lem f runs other held fits room apart =
      let made = create_cthread-ok morestack f.main entry stack sz x s fits held in
      let self : (c == c) ≡ true = ground arith in
      rw (load_thread, runs, made, self)
        (Returns-map
          (call_switch_lem back arg (c - 64) (thread_stack s.self) (some c)
            (starting morestack s.self c f.main entry x s) room (f, ground arith)
            (started s.self c f.main, ground arith))
          λ g y.
            first_switch morestack back entry arg s.self f.main c x s (thread_stack s.self) g
              (omega arith) (omega arith) room apart y)
