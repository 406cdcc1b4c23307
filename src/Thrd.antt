-- ===== src/Thrd.antt =====
-- cthread-c11threads.h, without ct_thrd_sleep, and the thread functions of main.c.
-- ct_thrd_create ends in a switch to the new thread if there is memory for it: `some` is the value
-- that it returns at once, and `none` that the new thread runs. malloc is a parameter.
pub mod Create
pub mod Demo
pub mod Exit
use cthread.Base.{ℕ, ◌+◌, ◌-◌, ◌^◌, ◌==◌, Bool, Option, none, some, if◌then◌else◌, update}
use cthread.Word.{ℤ, pos, negsuc, word_mod}
use cthread.Run.{Run, ok, ◌>>=◌}
use cthread.Threads.{State, Main, null, cthread_self}
use cthread.Threads.Call.{
  Function, call_function, cthread_start, cthread_main_init, cthread_main_start, cthread_join,
  cthread_yield, cthread_exit,
}

abbrev pub ct_thrd_success : ℤ
ct_thrd_success = pos 0

abbrev pub ct_thrd_nomem : ℤ
ct_thrd_nomem = negsuc 1

-- the size of a stack
abbrev pub stack_size : ℕ
stack_size = 4096

unfoldable pub ct_thrd_create : ℕ → ℕ → ℕ → Function → ℕ → ℕ → State → Run (Option ℤ × State)
ct_thrd_create morestack back back2 malloc fn arg s = do
  (buf, s) ← call_function back malloc stack_size 0 s
  let start : Run (Option ℤ × State) = do
    s ← cthread_start morestack back2 fn arg buf stack_size s
    ok (none, s)
  if buf == null then ok (some ct_thrd_nomem, s) else start

-- the rest, once cthread_start has returned in rax
unfoldable pub ct_thrd_created : ℕ → State → ℤ × State
ct_thrd_created thr s = (ct_thrd_success, record s { mem = update s.mem thr s.cpu.rax })

abbrev pub ct_thrd_equal : ℕ → ℕ → Bool
ct_thrd_equal a b = a == b

abbrev pub ct_thrd_current : State → ℕ
ct_thrd_current s = cthread_self s

-- `udata` is what cthread_yield, called without its argument, finds for it
unfoldable pub ct_thrd_yield : ℕ → ℕ → State → Run State
ct_thrd_yield back udata s = cthread_yield back udata s

-- `(uintptr_t)code`
abbrev pub to_pointer : ℤ → ℕ
to_pointer (pos n) = n
to_pointer (negsuc n) = 2 ^ 64 - (n + 1)

unfoldable pub ct_thrd_exit : ℕ → ℤ → State → Run State
ct_thrd_exit back code s = cthread_exit back (to_pointer code) s

-- main.c: test2_fn, which returns at once
abbrev pub test2_fn : ℕ → ℕ
test2_fn p = 3

-- main.c: test_func up to its first sleep; the stack is not tested for NULL
unfoldable pub test_func_start : ℕ → ℕ → ℕ → Function → ℕ → State → Run State
test_func_start morestack back back2 malloc test2 s = do
  (stack, s) ← call_function back malloc stack_size 0 s
  cthread_start morestack back2 test2 null stack stack_size s

-- main.c: test_func after its sleeps
unfoldable pub test_func_end : ℕ → State → Run State
test_func_end back s = cthread_exit back 2 s

-- main.c: join_func; the value that it returns at once, or none if it waits
unfoldable pub join_func : ℕ → ℕ → State → Run (Option ℕ × State)
join_func back p s = do
  (r, s) ← cthread_join back p s
  ok (elim r [ none ↦ none | some z ↦ some 0 ], s)

-- main.c: main up to the start of the first thread, but for the event loop, which is apart; `m` is the
-- address of the variable
unfoldable pub main_first : ℕ → ℕ → ℕ → Function → ℕ → ℕ → State → Run State
main_first morestack back back2 malloc m test_func s = do
  (stack, s) ← call_function back malloc stack_size 0 (cthread_main_init m s)
  cthread_main_start morestack back2 m test_func null stack stack_size s

-- main.c: main from there to the start of the second thread; rax is `thrd1`
unfoldable pub main_second : ℕ → ℕ → ℕ → Function → ℕ → ℕ → State → Run State
main_second morestack back back2 malloc m join s = do
  let thrd1 = s.cpu.rax
  (stack, s) ← call_function back malloc stack_size 0 s
  cthread_main_start morestack back2 m join thrd1 stack stack_size s
