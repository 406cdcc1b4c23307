-- ===== src/Threads/Reach.antt =====
-- cthread.c: the states that a program reaches from cthread_main_init, by any sequence of operations.
use cthread.Base.{ℕ, ◌≤◌, ◌≡◌, sym, refl, List, [], none, arith, subst}
use cthread.Run.{ok, Returns-at}
use cthread.Threads.{null, Cpu, State}
use cthread.Threads.Call.{cthread_main_init}
use cthread.Threads.Census.{Census}
use cthread.Threads.Op.{Op, perform, after, Allowed, living}
use cthread.Threads.Refine.{perform-Running, perform-Census}
use cthread.Threads.Running.{Line, nil, Running}

-- A state that is reached from `s0`, with the running threads and the threads of the main `m` that have
-- not ended: code may compute with the registers and its memory, and perform an operation that is
-- allowed.
pub data Reached (morestack m : ℕ) (s0 : State) : State → List ℕ → List ℕ → Type 0 where
  from_main : Reached morestack m s0 s0 [] []
  computes :
      {s : State} {xs ts : List ℕ}
      → Reached morestack m s0 s xs ts
      → (cpu : Cpu) (mem : ℕ → ℕ) → Reached morestack m s0 (record s { cpu = cpu; mem = mem }) xs ts
  performs :
      {s g : State} {xs ts : List ℕ}
      → Reached morestack m s0 s xs ts
      → (back : ℕ) (op : Op) → 56 ≤ s.cpu.rsp
      → Allowed op s xs
      → perform morestack back op s ≡ ok g
      → Reached morestack m s0 g (after op s xs) (living op s m ts)

init-Running :
    (m : ℕ) (s : State)
    → s.self ≡ null
    → ((a : ℕ) → s.thread a ≡ none)
    → Running (cthread_main_init m s) []
unfolding cthread_main_init
init-Running m s idle empty = record {
  line = subst (λ p. Line s.thread p []) (sym idle) nil;
  null_free = empty null;
  rooted = λ a n h. absurd (ground (arith, empty a));
}

init-Census :
    (m : ℕ) (s : State) → ((a : ℕ) → s.thread a ≡ none) → Census (cthread_main_init m s) m []
unfolding cthread_main_init
init-Census m s empty = record {
  distinct = tt;
  each = λ a. rw (empty a) refl;
  counted = ground arith;
}

-- Let a main function initialise its structure, with no threads, and let it and its threads compute
-- and perform operations that are allowed, in any order. Then the members `yield_to` lead from the
-- current thread through the distinct threads that are running to the main function, and num_threads is
-- the number of the threads that have started and not ended.
pub Reached-Census :
    (morestack m : ℕ) (s : State)
    → s.self ≡ null
    → ((a : ℕ) → s.thread a ≡ none)
    → (g : State) (xs ts : List ℕ) → Reached morestack m (cthread_main_init m s) g xs ts
    → Running g xs × Census g m ts
Reached-Census morestack m s idle empty g xs ts from_main =
    (init-Running m s idle empty, init-Census m s empty)
Reached-Census morestack m s idle empty _ xs ts (computes {s = h} r cpu mem) =
    let (run, c) = Reached-Census morestack m s idle empty h xs ts r in
    (
      record { line = run.line; null_free = run.null_free; rooted = run.rooted },
      record { distinct = c.distinct; each = c.each; counted = c.counted },
    )
Reached-Census morestack m s idle empty g _ _
      (performs {s = h} {xs} {ts} r back op room allowed ends) =
    let (run, c) = Reached-Census morestack m s idle empty h xs ts r in
    (
      Returns-at (perform-Running morestack back op h xs run room allowed) ends,
      Returns-at (perform-Census morestack back op h xs run room allowed m ts c) ends,
    )
