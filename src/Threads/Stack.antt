-- ===== src/Threads/Stack.antt =====
-- cthread.sysv64.s: the registers of a function on its stack.
use cthread.Base.{ℕ, ◌+◌, ◌-◌, ◌≤◌, ◌<◌, ◌⊎◌, ap, ◌∙◌, ◌≡◌, update, arith}
use cthread.Run.{Run, ok, ◌>>=◌}
use cthread.Threads.{Cpu, State, push, push_registers}

-- The words from `sp` on are the registers of a function that has called cthread_asm_switch: `c` is
-- what it finds when that call returns.
pub record Suspended (mem : ℕ → ℕ) (sp : ℕ) (c : Cpu) : Type 0 where
  pub r15 : mem sp ≡ c.r15
  pub r14 : mem (sp + 8) ≡ c.r14
  pub r13 : mem (sp + 16) ≡ c.r13
  pub r12 : mem (sp + 24) ≡ c.r12
  pub rbx : mem (sp + 32) ≡ c.rbx
  pub rbp : mem (sp + 40) ≡ c.rbp
  pub pc : mem (sp + 48) ≡ c.pc
  pub rsp : sp + 56 ≡ c.rsp

-- where a call returns to
abbrev pub returning : ℕ → Cpu → Cpu
returning back c = record c { pc = back }

abbrev pub pushed : ℕ → State → State
pushed x s = record s {
  cpu = record (s.cpu) { rsp = s.cpu.rsp - 8 };
  mem = update s.mem (s.cpu.rsp - 8) x;
}

pub push-ok : (x : ℕ) (s : State) → 8 ≤ s.cpu.rsp → push x s ≡ ok (pushed x s)
unfolding push
push-ok x s h = ground arith

abbrev pub pushed_registers : State → State
pushed_registers s =
    let c = s.cpu in
    pushed c.r15 (pushed c.r14 (pushed c.r13 (pushed c.r12 (pushed c.rbx (pushed c.rbp s)))))

push-bind {ℓ} :
    {A : Type ℓ} (x : ℕ) (s : State) (next : State → Run A)
    → 8 ≤ s.cpu.rsp
    → push x s >>= next ≡ next (pushed x s)
push-bind x s next h = ap (λ r. r >>= next) (push-ok x s h)

pub push_registers-ok : (s : State) → 48 ≤ s.cpu.rsp → push_registers s ≡ ok (pushed_registers s)
unfolding push_registers
push_registers-ok s h =
    let c = s.cpu in
    let s1 = pushed c.rbp s in
    let s2 = pushed c.rbx s1 in
    let s3 = pushed c.r12 s2 in
    let s4 = pushed c.r13 s3 in
    push-bind c.rbp s
      (λ s. push s.cpu.rbx s >>= λ s. push s.cpu.r12 s >>= λ s.
        push s.cpu.r13 s >>= λ s. push s.cpu.r14 s >>= λ s. push s.cpu.r15 s)
      (omega arith)
    ∙ push-bind c.rbx s1
        (λ s. push s.cpu.r12 s >>= λ s.
          push s.cpu.r13 s >>= λ s. push s.cpu.r14 s >>= λ s. push s.cpu.r15 s)
        (omega arith)
    ∙ push-bind c.r12 s2 (λ s. push s.cpu.r13 s >>= λ s. push s.cpu.r14 s >>= λ s. push s.cpu.r15 s)
        (omega arith)
    ∙ push-bind c.r13 s3 (λ s. push s.cpu.r14 s >>= λ s. push s.cpu.r15 s) (omega arith)
    ∙ push-bind c.r14 s4 (λ s. push s.cpu.r15 s) (omega arith)
    ∙ push-ok c.r15 (pushed c.r14 s4) (omega arith)

pub pushed-Suspended :
    (back : ℕ) (s : State)
    → 56 ≤ s.cpu.rsp
    → Suspended (pushed_registers (pushed back s)).mem (s.cpu.rsp - 56) (returning back s.cpu)
pushed-Suspended back s h = record {
  r15 = ground arith;
  r14 = ground arith;
  r13 = ground arith;
  r12 = ground arith;
  rbx = ground arith;
  rbp = ground arith;
  pc = ground arith;
  rsp = omega arith;
}

pub pushed-mem :
    (back a : ℕ) (s : State)
    → 56 ≤ s.cpu.rsp
    → (a + 56 < s.cpu.rsp) ⊎ (s.cpu.rsp ≤ a)
    → (pushed_registers (pushed back s)).mem a ≡ s.mem a
pushed-mem back a s h o = ground arith
