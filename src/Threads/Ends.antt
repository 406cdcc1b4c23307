-- ===== src/Threads/Ends.antt =====
-- cthread.c: what the ends of threads, and joins, do to the stack of running threads, and to the threads
-- that there are.
use cthread.Base.{
  ℕ, ◌≤◌, ◌≡◌, ◌≢◌, ◌∙◌, sym, ap, true, not, false, List, ◌∷◌, some, ◌==◌, arith, refl, has,
}
use cthread.Run.{returns, Returns, Returns-map}
use cthread.Threads.{load_thread, null, Thread, Main, State}
use cthread.Threads.Call.{cthread_exit, cthread_join}
use cthread.Threads.Exit.{ended, exited, exit_yield_lem, exit_tailcall_lem}
use cthread.Threads.Join.{Joins, waiting, cthread_join_lem}
use cthread.Threads.Census.{Lives, relabel}
use cthread.Threads.Moves.{passed}
use cthread.Threads.Running.{link, main_of, Line, Line-frame, Running, Running-same}
use cthread.Threads.Top.{
  Current, ne_null, out_parts, put_on, take_off, main_held, saved_stack, exited-Running,
  exited-Line,
}

-- there are the threads of `s`, and the current one has ended
abbrev pub Gone : ℕ → Thread → State → State → Type 0
Gone code t s g = (x : Main) × (s.main t.main ≡ some x) × Lives (exited code t x s) g

module _ {s : State} {xs : List ℕ} (r : Running s xs) (back : ℕ) (room : 56 ≤ s.cpu.rsp) where
  pub exit-Running :
      (code : ℕ) (c : Current s xs)
      → c.top.finished ≡ false
      → c.top.exit_to ≡ null
      → Returns (λ g. Running g c.rest × Gone code c.top s g) (cthread_exit back code s)
  exit-Running code c new alone =
      let (m, held) = main_held s.self c.top r c.held in
      let runs : s.self ≢ null = ne_null s.self c.top r c.held in
      let e = exited-Running r code m c held in
      let under = exited-Line r code m c in
      let top : (exited code c.top m s).thread s.self ≡ some (ended code c.top) = ground arith in
      let (load, at) =
        saved_stack s.self c.top.yield_to (ended code c.top) (take_off c.top.yield_to e under) top
          under in
      Returns-map (exit_yield_lem back code s load runs c.held new held alone at room) λ g w.
        let (run, l) =
          passed w (take_off c.top.yield_to e under)
            (record { threads = λ a. refl; mains = λ n. refl }) in
        (run, (m, held, l))

  pub exit_to-Running :
      (code : ℕ) (c : Current s xs) (t : Thread)
      → c.top.finished ≡ false
      → s.thread c.top.exit_to ≡ some t
      → has c.top.exit_to xs ≡ false
      → Returns
          (λ g. Running g (c.top.exit_to ∷ c.rest) × Gone code c.top s g)
          (cthread_exit back code s)
  exit_to-Running code c t new joiner out =
      let (m, held) = main_held s.self c.top r c.held in
      let runs : s.self ≢ null = ne_null s.self c.top r c.held in
      let e = exited-Running r code m c held in
      let under = exited-Line r code m c in
      let top : (exited code c.top m s).thread s.self ≡ some (ended code c.top) = ground arith in
      let j = c.top.exit_to in
      let (apart, rest) = out_parts j s.self c.rest (sym (ap (has j) c.split) ∙ out) in
      let other : j ≢ s.self = λ e. absurd (ground arith) in
      let waits : (exited code c.top m s).thread j ≡ some t =
        let flip : (s.self == j) ≡ false = ground arith in rw flip joiner in
      Returns-map
        (exit_tailcall_lem back code s t runs c.held new held (ne_null j t r joiner) other joiner
          room)
        λ g w.
          let u = record t { yield_to = c.top.yield_to; caller = c.top.caller } in
          let (run, l) =
            passed w (put_on j t u e waits refl rest under) (relabel j j t u waits refl refl) in
          (run, (m, held, l))

  -- a join that waits
  pub join-Running :
      (t : ℕ) (x : Thread) (c : Current s xs)
      → s.thread t ≡ some x
      → x.finished ≡ false
      → s.self ≢ t
      → Returns (λ (v, g). Running g c.rest × Lives s g) (cthread_join back t s)
  join-Running t x c held new other =
      let links : (a : ℕ) → link ((waiting t x s).thread a) ≡ link (s.thread a) =
        λ a. ground arith in
      let mains : (a : ℕ) → main_of ((waiting t x s).thread a) ≡ main_of (s.thread a) =
        λ a. ground arith in
      let waits = Running-same {g = waiting t x s} links mains (λ m y e. (y, e)) refl r in
      let under : Line (waiting t x s).thread c.top.yield_to c.rest =
        Line-frame c.under λ a i. links a in
      let (load, e) =
        saved_stack s.self c.top.yield_to c.top (take_off c.top.yield_to r c.under) c.held
          c.under in
      let j : Joins t s = record {
        joined = x;
        joiner = c.top;
        load = load;
        runs = ne_null s.self c.top r c.held;
        other = other;
        held = held;
        unfinished = new;
        current = c.held;
        caller = e;
        room = room;
      } in
      Returns-map (cthread_join_lem back t s j) λ (v, g) (waited, w).
        passed w (take_off c.top.yield_to waits under)
          (relabel c.top.yield_to t x (record x { exit_to = s.self }) held refl refl)

  -- a join of a thread that has ended
  pub join_done :
      (t : ℕ) (x : Thread) (c : Current s xs)
      → s.thread t ≡ some x
      → x.finished ≡ true
      → Returns (λ (v, g). Running g xs × Lives s g) (cthread_join back t s)
  unfolding cthread_join load_thread
  join_done t x c held done =
      let nz = ne_null s.self c.top r c.held in
      let runs : not (s.self == null) ≡ true = ground arith in
      rw (runs, load_thread, held, done)
        (returns (r, record { threads = λ a. refl; mains = λ m. refl }))
