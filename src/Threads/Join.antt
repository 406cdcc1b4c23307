-- ===== src/Threads/Join.antt =====
-- cthread.c: a join, and what it finds when the joined thread ends.
use cthread.Base.{
  ℕ, ◌-◌, ◌%◌, ◌≤◌, ap, ◌∙◌, ◌≡◌, ◌≢◌, true, false, not, Option, none, some, ◌==◌, arith, refl, sym,
  Bool-cases, inl, inr,
}
use cthread.Word.{signed32, word_mod}
use cthread.Run.{ok, ◌>>=◌, Returns, returns, Returns-bind, Returns-at, Returns-map}
use cthread.Threads.{
  null, Thread, Main, State, Slot, thread_stack, main_stack, load_thread, set_record, set_thread,
}
use cthread.Threads.Call.{cthread_exit, cthread_join, join_resumed, do_yield}
use cthread.Threads.Stack.{returning}
use cthread.Threads.Switch.{Switched, with_stack}
use cthread.Threads.Yield.{
  call_slot, stack_in, stack_of, stack_of-saved, yield_stack-ok, do_yield_lem, Kept, Kept-Suspended,
}
use cthread.Threads.Exit.{ended, exit_tailcall_lem}

-- the state in which the join of `t` yields
abbrev pub waiting : ℕ → Thread → State → State
waiting t x s = set_record s t (record x { exit_to = s.self })

stack_of-waiting :
    (t : ℕ) (x : Thread) (s : State) (slot : Slot)
    → s.thread t ≡ some x
    → stack_of (waiting t x s) slot ≡ stack_of s slot
stack_of-waiting t x s (thread_stack c) h = elim (Bool-cases (t == c)) [
  | inl same ↦ let held : s.thread c ≡ some x = ground arith in rw (same, held) refl
  | inr other ↦ rw other refl
]
stack_of-waiting t x s (main_stack m) h = refl

-- the thread that waits, and the one it joins
pub record Joins (t : ℕ) (s : State) : Type 0 where
  pub joined : Thread
  pub joiner : Thread
  pub load : ℕ
  pub runs : s.self ≢ null
  pub other : s.self ≢ t
  pub held : s.thread t ≡ some joined
  pub unfinished : joined.finished ≡ false
  pub current : s.thread s.self ≡ some joiner
  pub caller : stack_of s (call_slot joiner.yield_to joiner) ≡ some load
  pub room : 56 ≤ s.cpu.rsp

join_waits :
    (back t : ℕ) (s : State) (x : Thread)
    → s.self ≢ null
    → s.thread t ≡ some x
    → x.finished ≡ false
    → cthread_join back t s ≡ (do_yield back null s.self (waiting t x s) >>= λ s. ok (none, s))
unfolding cthread_join load_thread
join_waits back t s x n held new =
    let runs : not (s.self == null) ≡ true = ground arith in rw (runs, load_thread, held, new) refl

module _ (back t : ℕ) (s : State) (j : Joins t s) where
  pub cthread_join_lem :
      Returns
        (λ r.
          (r.0 ≡ none)
          × Switched back null j.load
              (thread_stack s.self)
              none
              (set_thread j.joiner.yield_to (waiting t j.joined s))
              r.1)
        (cthread_join back t s)
  cthread_join_lem =
      let w = waiting t j.joined s in
      let here : w.thread s.self ≡ some j.joiner =
        let o = j.other in let c = j.current in ground arith in
      let load =
        yield_stack-ok w j.joiner j.load (
          stack_of-waiting t j.joined s (call_slot j.joiner.yield_to j.joiner) j.held ∙ j.caller) in
      rw (join_waits back t s j.joined j.runs j.held j.unfinished) (
        Returns-bind (do_yield_lem back null s.self j.load j.joiner w here load j.room)
          λ g y. returns (refl, y))

-- In `g` the joined thread is current, and has not ended; the thread that joined it, from the state
-- `s` and with the switch that led to `a`, still waits for it.
pub record Ending (t : ℕ) (s a g : State) : Type 0 where
  pub current : Thread
  pub main : Main
  pub self : g.self ≡ t
  pub held : g.thread g.self ≡ some current
  pub unfinished : current.finished ≡ false
  pub counted : g.main current.main ≡ some main
  pub joined : current.exit_to ≡ s.self
  pub kept : Kept (thread_stack s.self) s a g

waiting_thread :
    (o : Option Thread) (sp : ℕ)
    → stack_in o ≡ some sp
    → (k : Thread) × (o ≡ some k) × (k.stack ≡ sp)
waiting_thread none sp h = cc
waiting_thread (some k) sp h = (k, refl, ground arith)

resumed_value :
    (t code sp : ℕ) (x : Thread) (z : State)
    → z.thread t ≡ with_stack sp (some (ended code x))
    → (q : State) × (join_resumed t z ≡ ok (signed32 (code % word_mod), q))
unfolding join_resumed load_thread
resumed_value t code sp x z h = (
  set_record z t (record x { finished = true; exit_code = code; stack = sp; exit_to = null }),
  rw (load_thread, h) refl,
)

-- Let a thread join another one that has not ended, and let that one end with a code while the first
-- one's stack is as the join left it. The end switches back into the join: the thread that joined is
-- current again, with its stack pointer and the registers that a function preserves, and the join
-- goes on to return the code as an int.
pub cthread_exit-cthread_join :
    (back t : ℕ) {s a g : State}
    → t ≢ null
    → (j : Joins t s) → cthread_join back t s ≡ ok (none, a)
    → (e : Ending t s a g) → (back2 code : ℕ)
    → Returns
        (λ z.
          (z.cpu
            ≡ record (s.cpu) { pc = back; rax = e.current.exit_data; rdi = e.current.exit_data })
          × (z.self ≡ s.self)
          × ((q : State) × (join_resumed t z ≡ ok (signed32 (code % word_mod), q))))
        (cthread_exit back2 code g)
cthread_exit-cthread_join back t {s} {a} {g} nz j call e back2 code =
    let y = (Returns-at (cthread_join_lem back t s j) call).1 in
    let x = e.current in
    let w = set_thread j.joiner.yield_to (waiting t j.joined s) in
    let hold : w.thread s.self ≡ some j.joiner =
      let o = j.other in let c = j.current in ground arith in
    let stack = stack_of-saved (thread_stack s.self) w a (j.joiner, hold) y in
    let (k, at, sp) = waiting_thread (g.thread s.self) (s.cpu.rsp - 56) (e.kept.stack ∙ stack) in
    let joined : x.exit_to ≢ g.self = rw (e.joined, e.self) j.other in
    let exits =
      exit_tailcall_lem back2 code g k (rw e.self nz) e.held e.unfinished e.counted
        (rw e.joined j.runs) joined (rw e.joined at) e.kept.room in
    Returns-map exits λ z v.
      let ending : z.thread g.self ≡ with_stack (g.cpu.rsp - 56) (some (ended code x)) =
        ground (arith, v.thread g.self) in
      (
        v.resumed (returning back s.cpu) (rw sp (Kept-Suspended g z e.kept j.room y.saved v.mem)),
        v.self ∙ e.joined,
        resumed_value t code (g.cpu.rsp - 56) x z (ap z.thread (sym e.self) ∙ ending),
      )
