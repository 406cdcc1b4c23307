-- ===== src/Threads/Request.antt =====
-- cthread.c: the allocators, which run on the main stack and abort when there is no memory.
use cthread.Base.{ℕ, ◌≤◌, ◌≡◌, ◌≢◌, ◌⊎◌, inl, inr, true, false, some, ◌==◌, arith, refl, Bool-cases}
use cthread.Run.{Run, ok, abort, Returns, returns}
use cthread.Threads.{null, Thread, Main, State}
use cthread.Threads.Call.{Function, cthread_altstack, or_abort, xmalloc, xcalloc, xrealloc}
use cthread.Threads.Alloc.{on_stack, Conforms, cthread_altstack_lem}

-- what is asked for, by xmalloc, xcalloc or xrealloc
pub data Request : Type 0 where
  mallocs : ℕ → Request
  callocs : ℕ → ℕ → Request
  reallocs : ℕ → ℕ → Request

-- the function of the code, given the allocator that it stands for
abbrev pub allocate : ℕ → ℕ → Function → Request → State → Run (ℕ × State)
allocate next back fn (mallocs sz) s = xmalloc next back fn sz s
allocate next back fn (callocs num sz) s = xcalloc next back fn num sz s
allocate next back fn (reallocs p sz) s = xrealloc next back fn p sz s

-- the arguments of the allocator
abbrev pub first : Request → ℕ
first (mallocs sz) = sz
first (callocs num sz) = num
first (reallocs p sz) = p

abbrev pub second : Request → ℕ
second (mallocs sz) = 0
second (callocs num sz) = sz
second (reallocs p sz) = sz

-- what comes of a request, where the allocator returns `ret` in the state `g`: a block, in the thread
-- that is current again with its stack pointer, or the end of the program
abbrev pub Allocates : State → ℕ → State → Run (ℕ × State) → Type 0
Allocates s ret g call =
    ((ret ≡ null) × (call ≡ abort))
    ⊎ ((ret ≢ null)
        × Returns
            (λ r. (r.0 ≡ ret) × (r.1.self ≡ s.self) × (r.1.cpu.rsp ≡ s.cpu.rsp) × (r.1.mem ≡ g.mem))
            call)

or_abort-Allocates :
    (s : State) (ret : ℕ) (g : State) (call : Run (ℕ × State))
    → Returns
        (λ r. (r.0 ≡ ret) × (r.1.self ≡ s.self) × (r.1.cpu.rsp ≡ s.cpu.rsp) × (r.1.mem ≡ g.mem))
        call
    → Allocates s ret g (or_abort call)
or_abort-Allocates s ret g call r = rw r.ends (elim (Bool-cases (ret == null)) [
  | inl missing ↦
      let test : (r.value.0 == null) ≡ true = rw r.holds.0 missing in
      inl (ground arith, rw test refl)
  | inr there ↦
      let test : (r.value.0 == null) ≡ false = rw r.holds.0 there in
      inr (ground arith, rw test (returns r.holds))
])

is_altstack :
    (next back : ℕ) (fn : Function) (s : State) (req : Request)
    → allocate next back fn req s
      ≡ or_abort (cthread_altstack next back fn (first req) (second req) s)
unfolding xmalloc xcalloc xrealloc
is_altstack next back fn s (mallocs sz) = refl
is_altstack next back fn s (callocs num sz) = refl
is_altstack next back fn s (reallocs p sz) = refl

module _ (next back : ℕ) (fn : Function) (req : Request) (s : State) where
  -- Let a thread call xmalloc, xcalloc or xrealloc, with room on its own stack and on the main one, where
  -- the allocator follows the calling convention. The allocator is called on the main stack with no
  -- current thread and the arguments of the call. If it returns NULL the program aborts; else the call
  -- returns the block, the thread is current again, and its stack pointer is what it was.
  pub allocate_lem :
      (t : Thread)
      → (m : Main) → s.self ≢ null
      → s.thread s.self ≡ some t
      → s.main t.main ≡ some m
      → 8 ≤ s.cpu.rsp
      → 16 ≤ m.stack
      → (ret : ℕ) (g : State)
      → fn (first req) (second req) (on_stack next back m.stack s) ≡ ok (ret, g)
      → Conforms (on_stack next back m.stack s) g
      → Allocates s ret g (allocate next back fn req s)
  allocate_lem t m runs held main room low ret g call c = rw (is_altstack next back fn s req) (
      or_abort-Allocates s ret g (cthread_altstack next back fn (first req) (second req) s) (
        cthread_altstack_lem next back fn (first req) (second req) s t m runs held main room low ret
          g call c))
