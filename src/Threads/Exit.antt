-- ===== src/Threads/Exit.antt =====
-- cthread.c: how a thread ends.
use cthread.Base.{ℕ, ◌≤◌, ◌≡◌, ◌≢◌, true, false, not, none, some, ◌==◌, arith, Bool-cases, inl, inr}
use cthread.Run.{Returns}
use cthread.Threads.{
  null, Thread, Main, State, thread_stack, load_thread, load_main, set_record, set_main, set_thread,
}
use cthread.Threads.Call.{cthread_tailcall, cthread_exit, pred}
use cthread.Threads.Switch.{Switched, call_switch_lem}
use cthread.Threads.Yield.{call_slot, stack_of, yield_stack-ok, do_yield_lem}

-- the state of cthread_tailcall before the switch
abbrev pub tailcalling : ℕ → Thread → Thread → State → State
tailcalling to f t s =
    set_thread to (set_record s to (record t { yield_to = f.yield_to; caller = f.caller }))

-- A tail call replaces the current thread by another one, which then yields to the caller of the
-- current thread: the switch loads the stack pointer of the other thread and saves the current one's.
pub cthread_tailcall_lem :
    (back to udata : ℕ) (f t : Thread) (s : State)
    → s.thread s.self ≡ some f
    → s.thread to ≡ some t
    → 56 ≤ s.cpu.rsp
    → Returns
        (Switched back udata t.stack (thread_stack s.self) none (tailcalling to f t s))
        (cthread_tailcall back to udata s)
unfolding cthread_tailcall load_thread
cthread_tailcall_lem back to udata f t s from target room =
    rw (load_thread, from, target)
      (call_switch_lem back udata t.stack (thread_stack s.self) none (tailcalling to f t s) room
        (elim (Bool-cases (to == s.self)) [
          | inl same ↦ (record t { yield_to = f.yield_to; caller = f.caller }, ground arith)
          | inr other ↦ (f, ground arith)
        ])
        tt)

-- a thread after its end, and the state then
abbrev pub ended : ℕ → Thread → Thread
ended code x = record x { finished = true; exit_code = code }

abbrev pub exited : ℕ → Thread → Main → State → State
exited code x m s =
    set_record (set_main s x.main (record m { num_threads = pred m.num_threads })) s.self
      (ended code x)

module _ (back code : ℕ) {x : Thread} {m : Main} (s : State) where
  -- A thread that runs, has not ended and that nothing has joined ends, with 56 bytes of stack left: it is
  -- marked with its exit code, one thread less is counted, and the switch loads the stack pointer of the
  -- thread or main function that it yields to.
  pub exit_yield_lem :
      (load : ℕ)
      → s.self ≢ null
      → s.thread s.self ≡ some x
      → x.finished ≡ false
      → s.main x.main ≡ some m
      → x.exit_to ≡ null
      → stack_of (exited code x m s) (call_slot x.yield_to x) ≡ some load
      → 56 ≤ s.cpu.rsp
      → Returns
          (Switched back null load
            (thread_stack s.self)
            none
            (set_thread x.yield_to (exited code x m s)))
          (cthread_exit back code s)
  unfolding cthread_exit load_thread load_main
  exit_yield_lem load runs held new counted no_joiner caller room =
      let e = exited code x m s in
      let self : not (s.self == null) ≡ true = ground arith in
      let unjoined : (x.exit_to == null) ≡ true = ground arith in
      rw (self, load_thread, held, new, load_main, counted, unjoined)
        (do_yield_lem back null s.self load (ended code x) e (ground arith)
          (yield_stack-ok e (ended code x) load caller) room)

  -- A thread that another one has joined ends by a tail call of that one, with the exit data.
  pub exit_tailcall_lem :
      (joiner : Thread)
      → s.self ≢ null
      → s.thread s.self ≡ some x
      → x.finished ≡ false
      → s.main x.main ≡ some m
      → x.exit_to ≢ null
      → x.exit_to ≢ s.self
      → s.thread x.exit_to ≡ some joiner
      → 56 ≤ s.cpu.rsp
      → Returns
          (Switched back x.exit_data joiner.stack
            (thread_stack s.self)
            none
            (tailcalling x.exit_to (ended code x) joiner (exited code x m s)))
          (cthread_exit back code s)
  unfolding cthread_exit load_thread load_main
  exit_tailcall_lem joiner runs held new counted joined other waits room =
      let e = exited code x m s in
      let self : not (s.self == null) ≡ true = ground arith in
      let has_joiner : (x.exit_to == null) ≡ false = ground arith in
      rw (self, load_thread, held, new, load_main, counted, has_joiner)
        (cthread_tailcall_lem back x.exit_to x.exit_data (ended code x) joiner e (ground arith)
          (ground arith) room)
