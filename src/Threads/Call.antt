-- ===== src/Threads/Call.antt =====
-- cthread.c: the operations on threads, and the allocators that run on the main stack.
-- A `Function` is code that is called with two arguments on the stack that it finds: it returns a
-- value and the state in which it returns, or it does not return.
use cthread.Base.{
  ℕ, zero, suc, ◌+◌, ◌-◌, ◌*◌, ◌/◌, ◌%◌, true, false, not, Option, none, some, ltb, ◌==◌,
  if◌then◌else◌, update,
}
use cthread.Word.{ℤ, pos, negsuc, signed32, word_mod}
use cthread.Run.{Run, ok, abort, ◌>>=◌, ◌>>◌, assert}
use cthread.Threads.{
  null, Thread, State, thread_stack, main_stack, load_thread, load_main, set_record, set_main,
  set_thread, cthread_self, push, call_switch,
}

-- `n + 1` and `n - 1` on int
abbrev pub succ : ℤ → ℤ
succ (pos n) = pos (n + 1)
succ (negsuc zero) = pos 0
succ (negsuc (suc n)) = negsuc n

abbrev pub pred : ℤ → ℤ
pred (pos zero) = negsuc 0
pred (pos (suc n)) = pos n
pred (negsuc n) = negsuc (n + 1)

unfoldable pub cthread_main_init : ℕ → State → State
cthread_main_init m s = set_main s m (record { stack = null; num_threads = pos 0 })

unfoldable pub cthread_call : ℕ → ℕ → ℕ → State → Run State
cthread_call back to udata s = do
  let from = cthread_self s
  t ← load_thread s to
  let save = if from == null then main_stack t.main else thread_stack from
  let s = set_thread to (set_record s to (record t { yield_to = from }))
  call_switch back udata t.stack save (some to) s

unfoldable pub cthread_tailcall : ℕ → ℕ → ℕ → State → Run State
cthread_tailcall back to udata s = do
  let from = cthread_self s
  f ← load_thread s from
  t ← load_thread s to
  let s = set_thread to (set_record s to (record t { yield_to = f.yield_to; caller = f.caller }))
  call_switch back udata t.stack (thread_stack from) none s

-- the stack pointer to load: `to ? to->stack : from->main->stack`
unfoldable pub yield_stack : Thread → State → Run ℕ
yield_stack f s =
    let of_thread : Run ℕ = do t ← load_thread s f.yield_to; ok t.stack
    in let of_main : Run ℕ = do m ← load_main s f.main; ok m.stack
      in if f.yield_to == null then of_main else of_thread

unfoldable pub do_yield : ℕ → ℕ → ℕ → State → Run State
do_yield back udata from s = do
  f ← load_thread s from
  load ← yield_stack f s
  call_switch back udata load (thread_stack from) none (set_thread f.yield_to s)

unfoldable pub cthread_yield : ℕ → ℕ → State → Run State
cthread_yield back udata s = do_yield back udata (cthread_self s) s

-- cthread_join up to its end or its call of do_yield: the value it returns, or none if it waits
unfoldable pub cthread_join : ℕ → ℕ → State → Run (Option ℤ × State)
cthread_join back t s = do
  let c = cthread_self s
  assert (not (c == null))
  x ← load_thread s t
  let done : Run (Option ℤ × State) = ok (some (signed32 (x.exit_code % word_mod)), s)
  let yield : Run (Option ℤ × State) = do
    s ← do_yield back null c (set_record s t (record x { exit_to = c }))
    ok (none, s)
  if x.finished then done else yield

-- cthread_join after that call has returned
unfoldable pub join_resumed : ℕ → State → Run (ℤ × State)
join_resumed t s = do
  x ← load_thread s t
  assert x.finished
  ok (signed32 (x.exit_code % word_mod), set_record s t (record x { exit_to = null }))

unfoldable pub cthread_exit : ℕ → ℕ → State → Run State
cthread_exit back code s = do
  let c = cthread_self s
  assert (not (c == null))
  x ← load_thread s c
  assert (not x.finished)
  m ← load_main s x.main
  let counted = set_main s x.main (record m { num_threads = pred m.num_threads })
  let s = set_record counted c (record x { finished = true; exit_code = code })
  let chain = cthread_tailcall back x.exit_to x.exit_data s
  let leave = do_yield back null c s
  if x.exit_to == null then leave else chain

-- `sizeof(cthread_t)`
abbrev pub sizeof_cthread : ℕ
sizeof_cthread = 88

abbrev pub zeroed : Thread
zeroed = record {
  stack = null;
  caller = record { stack = null; prev = null; return_address = null };
  main = null;
  wait_next = null;
  yield_to = null;
  exit_to = null;
  exit_data = null;
  exit_code = 0;
  finished = false;
}

-- where the structure goes: the end of the stack, rounded down to 16 bytes
abbrev pub place : ℕ → ℕ → ℕ
place stack sz = (stack + sz - sizeof_cthread) / 16 * 16

-- the words under the structure at `c`, from p[-8] to p[-1]
abbrev pub first_frame : ℕ → ℕ → ℕ → (ℕ → ℕ) → ℕ → ℕ
first_frame morestack c entry mem =
    let m = update (update (update mem (c - 64) null) (c - 56) null) (c - 48) null in
    let m = update (update (update m (c - 40) null) (c - 32) null) (c - 24) (c + 16) in
    update (update m (c - 16) entry) (c - 8) (morestack + 1)

-- A stack that has no room for the structure and the first frame is written out of bounds. The memory
-- of a stack lies apart from the structures of the other threads.
unfoldable pub create_cthread : ℕ → ℕ → ℕ → ℕ → ℕ → State → Run (ℕ × State)
create_cthread morestack m entry stack sz s = do
  assert (not (ltb (place stack sz) (stack + 64)))
  x ← load_main s m
  let c = place stack sz
  let t = record zeroed { stack = c - 64; main = m }
  let s = record s { mem = first_frame morestack c entry s.mem }
  ok (c, set_main (set_record s c t) m (record x { num_threads = succ x.num_threads }))

unfoldable pub cthread_start : ℕ → ℕ → ℕ → ℕ → ℕ → ℕ → State → Run State
cthread_start morestack back entry arg stack sz s = do
  let from = cthread_self s
  f ← load_thread s from
  (to, s) ← create_cthread morestack f.main entry stack sz s
  t ← load_thread s to
  let s = set_thread to (set_record s to (record t { yield_to = from }))
  call_switch back arg t.stack (thread_stack from) (some to) s

unfoldable pub cthread_main_start : ℕ → ℕ → ℕ → ℕ → ℕ → ℕ → ℕ → State → Run State
cthread_main_start morestack back m entry arg stack sz s = do
  assert (cthread_self s == null)
  (to, s) ← create_cthread morestack m entry stack sz s
  t ← load_thread s to
  assert (t.yield_to == null)
  let s = set_thread to (set_record s to (record t { yield_to = null }))
  call_switch back arg t.stack (main_stack m) (some to) s

-- `__morestack + 1`: the return address of the first function of a thread, with its value in rax
unfoldable pub morestack_return : ℕ → ℕ → State → Run State
morestack_return hlt back s = do
  s ← push hlt (record s { cpu = record (s.cpu) { rdi = s.cpu.rax } })
  cthread_exit back s.cpu.rdi s

abbrev pub Function : Type 0
Function = ℕ → ℕ → State → Run (ℕ × State)

-- a call, which pushes its return address; the function pops it
abbrev pub call_function : ℕ → Function → ℕ → ℕ → State → Run (ℕ × State)
call_function back fn arg0 arg1 s = do s ← push back s; fn arg0 arg1 s

-- with the return address on the stack, which the last instruction pops from the stack pointer that
-- is popped before; `next` is the return address of the call instruction
unfoldable pub cthread_asm_altstack : ℕ → ℕ → ℕ → ℕ → Function → State → Run (ℕ × State)
cthread_asm_altstack next arg0 arg1 load fn s = do
  s ← push s.cpu.rsp (record s { cpu = record (s.cpu) { rsp = load } })
  (ret, s) ← call_function next fn arg0 arg1 s
  ok (ret, record s { cpu = record (s.cpu) { rsp = s.mem s.cpu.rsp + 8; rax = ret } })

unfoldable pub cthread_altstack : ℕ → ℕ → Function → ℕ → ℕ → State → Run (ℕ × State)
cthread_altstack next back fn arg0 arg1 s = do
  let c = cthread_self s
  let direct = call_function back fn arg0 arg1 s
  let switched : Run (ℕ × State) = do
    t ← load_thread s c
    m ← load_main s t.main
    (ret, s) ←
        call_function back (λ a b. cthread_asm_altstack next a b m.stack fn) arg0 arg1
          (set_thread null s)
    ok (ret, set_thread c s)
  if c == null then direct else switched

-- `if (!p) abort()`
abbrev pub or_abort : Run (ℕ × State) → Run (ℕ × State)
or_abort r = r >>= λ x. if x.0 == null then abort else ok x

unfoldable pub xmalloc : ℕ → ℕ → Function → ℕ → State → Run (ℕ × State)
xmalloc next back malloc sz s = or_abort (cthread_altstack next back malloc sz 0 s)

unfoldable pub xcalloc : ℕ → ℕ → Function → ℕ → ℕ → State → Run (ℕ × State)
xcalloc next back calloc num sz s = or_abort (cthread_altstack next back calloc num sz s)

unfoldable pub xrealloc : ℕ → ℕ → Function → ℕ → ℕ → State → Run (ℕ × State)
xrealloc next back realloc p sz s = or_abort (cthread_altstack next back realloc p sz s)

unfoldable pub xfree : ℕ → ℕ → Function → ℕ → State → Run State
xfree next back free p s = do (ret, s) ← cthread_altstack next back free p 0 s; ok s
