-- ===== src/Watcher.antt =====
-- cthread-evloop.c and cthread-evloop.h: threads that wait for a descriptor. `Watching` is the threads,
-- and the members `watch.fn`, `thread` and `arg` of the `struct cthread_watch`s by address; the
-- `struct evwatch` is the first member, so that `container_of` is the identity. `wakeup` is the
-- address of fd_wakeup. cthread_recv has no `return`, and starts no transfer.
pub mod Wake
use cthread.Base.{ℕ, update}
use cthread.Run.{Run, ok, ◌>>=◌}
use cthread.Threads.{State, cthread_self}
use cthread.Threads.Call.{cthread_call}

pub record Watching : Type 0 where
  pub threads : State
  pub watch_fn : ℕ → ℕ
  pub watch_thread : ℕ → ℕ
  pub watch_arg : ℕ → ℕ

unfoldable pub cthread_recv : ℕ → ℕ → Watching → Watching
cthread_recv wakeup w x = record x {
  watch_fn = update x.watch_fn w wakeup;
  watch_thread = update x.watch_thread w (cthread_self x.threads);
}

-- to the state in which the thread goes on
unfoldable pub fd_wakeup : ℕ → ℕ → Watching → Run Watching
fd_wakeup back w x = do
  threads ← cthread_call back (x.watch_thread w) (x.watch_arg w) x.threads
  ok (record x { threads = threads })
