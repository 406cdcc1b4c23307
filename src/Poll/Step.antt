-- ===== src/Poll/Step.antt =====
-- evloop.epoll.c: evloop_step, over the timers and the polls. `Loop (Polls T)` is `struct evloop`.
-- The answers of epoll_wait and the time of the clock are arguments.
use cthread.Base.{
  zero, suc, update, ℕ, ◌+◌, ◌*◌, ◌/◌, ◌%◌, ◌&&◌, ◌||◌, not, List, [], ◌∷◌, Option, none, some,
  ◌==◌, if◌then◌else◌,
}
use cthread.Word.{ℤ, pos, negsuc, is_zero, word_mod}
use cthread.Run.{Run, ok, fault, ◌>>=◌}
use cthread.Timers.{Loop, Callback, invoke, ev_step_timers}
use cthread.Poll.{called, close, KHash, null, Bits, Polls, load_poll, flush}

-- `struct epoll_event`
pub record Event : Type 0 where
  pub ptr : ℕ
  pub events : Bits

-- what epoll_wait returns: an error, which is EINTR or another one, or events
pub data Answer : Type 0 where
  interrupted : Answer
  failed : Answer
  ready : List Event → Answer

-- the milliseconds of a `struct timespec`
unfoldable pub get_ticks : ℕ → ℕ → ℕ
get_ticks sec nsec = (sec * 1000 + nsec / 1000 / 1000) % word_mod

-- the loop over `try_again`: the events, or none for an error. A kernel that has no answer left is a
-- fault.
unfoldable pub try_again : List Answer → Run (Option (List Event))
try_again [] = fault
try_again (interrupted ∷ rest) = try_again rest
try_again (failed ∷ rest) = ok none
try_again (ready events ∷ rest) = ok (some events)

module _ {T : Type 0} (call : Callback (Polls T)) where
  -- `w->fn(w)`
  unfoldable pub wake : ℕ → Loop (Polls T) → Run (Loop (Polls T))
  wake w e = invoke call (e.rest.watch_fn w) w e

  -- the body of the loop over the events
  unfoldable pub dispatch : Event → Loop (Polls T) → Run (Loop (Polls T))
  dispatch v e = do
    q ← load_poll e.rest v.ptr
    let readable = wake q.rd e
    e ← (if not (q.rd == null) && (v.events.rd || v.events.hup) then readable else ok e)
    q ← load_poll e.rest v.ptr
    let writable = wake q.wr e
    if not (q.wr == null) && v.events.wr then writable else ok e

  unfoldable pub dispatch_all : List Event → Loop (Polls T) → Run (Loop (Polls T))
  dispatch_all [] e = ok e
  dispatch_all (v ∷ vs) e = dispatch v e >>= dispatch_all vs

  -- evloop_step after the timers, if none was due
  unfoldable pub wait_step : ℕ → List Answer → ℕ → Loop (Polls T) → Run (ℤ × Loop (Polls T))
  wait_step dirty_fuel answers ticks e = do
    polls ← flush dirty_fuel e.rest
    answer ← try_again answers
    let e : Loop (Polls T) = record e { rest = polls }
    elim answer [
      | none ↦ ok (negsuc 0, e)
      | some events ↦ dispatch_all events (record e { now = ticks }) >>= λ e. ok (pos 0, e)
    ]

  unfoldable pub evloop_step :
      ℕ → ℕ → List Answer → ℕ → ℕ → Loop (Polls T) → Run (ℤ × Loop (Polls T))
  evloop_step fuel dirty_fuel answers sec nsec e = do
    (timeout, e) ← ev_step_timers call fuel e
    let go_on = wait_step dirty_fuel answers (get_ticks sec nsec) e
    if is_zero timeout then ok (pos 0, e) else go_on

-- The members that the model has: `memset` makes the heap empty, without an array. The state before it
-- stands for the memory that the loop reaches later.
unfoldable pub evloop_init : (k : KHash) → ℕ → ℕ → Loop (Polls k.Table) → Loop (Polls k.Table)
evloop_init k sec nsec e = record e {
  timers = record (e.timers) { size = 0; cap = 0 };
  now = get_ticks sec nsec;
  rest = record (e.rest) { dirty_list = null; pollers = k.init };
}

module _ (k : KHash) where
  -- the loop of evloop_destroy over the table, from the entry `i` on, with the number of entries left
  unfoldable pub free_polls : ℕ → ℕ → Polls k.Table → Run (Polls k.Table)
  free_polls zero i s = ok s
  free_polls (suc n) i s =
      let p = k.val s.pollers i in
      let free : Run (Polls k.Table) = do
        q ← load_poll s p
        free_polls n (i + 1) (called (record s { poll = update s.poll p none }) (close q.fd))
      in let skip = free_polls n (i + 1) s in if k.exist s.pollers i then free else skip

  -- The array of the timers is freed: no entry may be accessed. `efd` is the member of this name. The
  -- table and the signal stack, which are freed too, are not reached again and are left as they are.
  unfoldable pub evloop_destroy : ℤ → Loop (Polls k.Table) → Run (Loop (Polls k.Table))
  evloop_destroy efd e = do
    polls ← free_polls (k.end e.rest.pollers) 0 e.rest
    ok (record e { timers = record (e.timers) { cap = 0 }; rest = called polls (close efd) })
