-- ===== src/Threads/Refine.antt =====
-- cthread.c: the operations on threads, seen as operations on the stack of running threads.
use cthread.Base.{
  ℕ, ◌≤◌, ◌≡◌, ◌⊎◌, ◌∙◌, sym, true, false, List, ◌∷◌, none, some, ◌==◌, arith, refl, subst, inl,
  inr, Bool-cases, has,
}
use cthread.Run.{Returns, returns, Returns-bind, Returns-map}
use cthread.Threads.{null, Thread, State}
use cthread.Threads.Call.{cthread_exit, place}
use cthread.Threads.Ends.{Gone, exit-Running, exit_to-Running, join-Running, join_done}
use cthread.Threads.Moves.{
  Begun, call-Running, tailcall-Running, yield-Running, start-Running, main_start-Running,
}
use cthread.Threads.Census.{Lives, Census, Census-same, Census-created, Census-exited}
use cthread.Threads.Op.{
  Op, calls, tailcalls, yields, starts, main_starts, exits, joins, perform, after, Allowed, living,
}
use cthread.Threads.Running.{Line, Running}
use cthread.Threads.Top.{Current, Running-Current, ne_null}

some-inj : {t u : Thread} → some t ≡ some u → t ≡ u
some-inj e = ground arith

-- what an operation does to the threads that there are
Effect : ℕ → Op → State → State → Type 0
Effect morestack (calls to udata) s g = Lives s g
Effect morestack (tailcalls to udata) s g = Lives s g
Effect morestack (yields udata) s g = Lives s g
Effect morestack (starts entry arg stack sz) s g =
    (s.thread (place stack sz) ≡ none)
    × ((t : Thread) × (s.thread s.self ≡ some t) × Begun morestack t.main entry stack sz s g)
Effect morestack (main_starts m entry arg stack sz) s g =
    (s.thread (place stack sz) ≡ none) × Begun morestack m entry stack sz s g
Effect morestack (exits code) s g =
    (t : Thread) × (s.thread s.self ≡ some t) × (t.finished ≡ false) × Gone code t s g
Effect morestack (joins t) s g = Lives s g

exits_lem :
    (morestack back code : ℕ) (s : State) (xs : List ℕ)
    → Running s xs
    → 56 ≤ s.cpu.rsp
    → (t : Thread) → s.thread s.self ≡ some t
    → t.finished ≡ false
    → (t.exit_to ≡ null)
      ⊎ ((j : Thread) × (s.thread t.exit_to ≡ some j) × (has t.exit_to xs ≡ false))
    → Returns
        (λ g. Running g (after (exits code) s xs) × Effect morestack (exits code) s g)
        (cthread_exit back code s)
unfolding Effect
exits_lem morestack back code s xs r room t held new how =
    let top = Running-Current r (ne_null s.self t r held) in
    let same : top.top ≡ t = some-inj (sym top.held ∙ held) in
    let c : Current s xs = record {
      rest = top.rest;
      top = t;
      split = top.split;
      held = held;
      out = top.out;
      under = subst (λ (x : Thread). Line s.thread x.yield_to top.rest) same top.under;
    } in
    let leads = λ (ys : List ℕ) (shape : after (exits code) s xs ≡ ys).
      subst
        (λ ys.
          Returns (λ g. Running g ys × Effect morestack (exits code) s g)
            (cthread_exit back code s))
        (sym shape) in
    elim how [
      | inl alone ↦
          let test : (t.exit_to == null) ≡ true = ground arith in
          leads c.rest (rw (held, top.split, test) refl) (
            Returns-map (exit-Running r back room code c new alone)
              λ g (run, b). (run, (t, held, new, b)))
      | inr (j, joiner, out) ↦
          let joined = ne_null t.exit_to j r joiner in
          let test : (t.exit_to == null) ≡ false = ground arith in
          leads (t.exit_to ∷ c.rest) (rw (held, top.split, test) refl) (
            Returns-map (exit_to-Running r back room code c j new joiner out)
              λ g (run, b). (run, (t, held, new, b)))
    ]

perform_lem :
    (morestack back : ℕ) (op : Op) (s : State) (xs : List ℕ)
    → Running s xs
    → 56 ≤ s.cpu.rsp
    → Allowed op s xs
    → Returns
        (λ g. Running g (after op s xs) × Effect morestack op s g)
        (perform morestack back op s)
unfolding Effect
perform_lem morestack back (calls to udata) s xs r room (t, held, out) =
    call-Running r back room to udata t held out
perform_lem morestack back (tailcalls to udata) s xs r room (runs, (t, held, out)) =
    let c = Running-Current r runs in
    rw c.split (tailcall-Running r back room to udata t c held out)
perform_lem morestack back (yields udata) s xs r room runs =
    let c = Running-Current r runs in rw c.split (yield-Running r back room udata c)
perform_lem morestack back (starts entry arg stack sz) s xs r room (runs, f, unused) =
    let c = Running-Current r runs in
    Returns-map (start-Running r back room morestack entry arg stack sz c f unused)
      λ g (run, b). (run, (unused, (c.top, c.held, b)))
perform_lem morestack back (main_starts m entry arg stack sz) s xs r room
      (idle, (x, held), f, unused) =
    Returns-map (main_start-Running r back room morestack m entry arg stack sz x idle held f unused)
      λ g (run, b). (run, (unused, b))
perform_lem morestack back (exits code) s xs r room (t, held, new, how) =
    exits_lem morestack back code s xs r room t held new how
perform_lem morestack back (joins t) s xs r room (runs, other, (x, held)) =
    let c = Running-Current r runs in
    elim (Bool-cases x.finished) [
      | inl done ↦
          rw (held, done) (Returns-bind (join_done r back room t x c held done) λ v w. returns w)
      | inr new ↦
          rw (held, new, c.split)
            (Returns-bind (join-Running r back room t x c held new other) λ v w. returns w)
    ]

-- With 56 bytes of stack left, each operation that is allowed does to the stack of running threads what
-- it promises: a call or a start pushes a thread, a yield pops the current one, a tail call replaces
-- it, and an exit pops it, or replaces it by the thread that has joined it; a join pops it too, if the
-- joined thread has not ended. No thread stands twice on the stack, and each one yields to the one under
-- it, also after the operation.
pub perform-Running :
    (morestack back : ℕ) (op : Op) (s : State) (xs : List ℕ)
    → Running s xs
    → 56 ≤ s.cpu.rsp
    → Allowed op s xs
    → Returns (λ g. Running g (after op s xs)) (perform morestack back op s)
perform-Running morestack back op s xs r room allowed =
    Returns-map (perform_lem morestack back op s xs r room allowed) λ g (run, e). run

Effect-Census :
    (morestack : ℕ) (op : Op) (s g : State) (m : ℕ) (ts : List ℕ)
    → Effect morestack op s g
    → Census s m ts
    → Census g m (living op s m ts)
unfolding Effect
Effect-Census morestack (calls to udata) s g m ts l c = Census-same l c
Effect-Census morestack (tailcalls to udata) s g m ts l c = Census-same l c
Effect-Census morestack (yields udata) s g m ts l c = Census-same l c
Effect-Census morestack (starts entry arg stack sz) s g m ts (unused, (t, runs, (x, held, l))) c =
    rw runs (Census-same l (Census-created c morestack (place stack sz) t.main entry x unused held))
Effect-Census morestack (main_starts n entry arg stack sz) s g m ts (unused, (x, held, l)) c =
    Census-same l (Census-created c morestack (place stack sz) n entry x unused held)
Effect-Census morestack (joins t) s g m ts l c = Census-same l c
Effect-Census morestack (exits code) s g m ts (t, runs, new, (x, held, l)) c =
    Census-same l (Census-exited c code t x runs new held)

-- Each operation that is allowed, with 56 bytes of stack left, keeps the count of a main function equal
-- to the number of its threads that have not ended: a start of one of its threads adds it, an exit
-- takes the current thread away, and the other operations change neither.
pub perform-Census :
    (morestack back : ℕ) (op : Op) (s : State) (xs : List ℕ)
    → Running s xs
    → 56 ≤ s.cpu.rsp
    → Allowed op s xs
    → (m : ℕ) (ts : List ℕ) → Census s m ts
    → Returns (λ g. Census g m (living op s m ts)) (perform morestack back op s)
perform-Census morestack back op s xs r room allowed m ts c =
    Returns-map (perform_lem morestack back op s xs r room allowed)
      λ g (run, e). Effect-Census morestack op s g m ts e c
