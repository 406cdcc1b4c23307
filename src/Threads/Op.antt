-- ===== src/Threads/Op.antt =====
-- cthread.c: the operations on threads as data, what they do to the stack of running threads, and when
-- they are allowed.
use cthread.Base.{
  ℕ, ◌≡◌, ◌≢◌, ◌⊎◌, Bool, false, List, [], ◌∷◌, Option, none, some, ◌==◌, if◌then◌else◌, has,
}
use cthread.Run.{Run, ok, ◌>>=◌}
use cthread.Threads.{null, Thread, Main, State}
use cthread.Threads.Call.{
  cthread_call, cthread_tailcall, cthread_yield, cthread_start, cthread_main_start, cthread_exit,
  cthread_join, place,
}
use cthread.Threads.Result.{Fits}
use cthread.Threads.Census.{remove}

-- the operations, with their arguments
pub data Op : Type 0 where
  calls : ℕ → ℕ → Op
  tailcalls : ℕ → ℕ → Op
  yields : ℕ → Op
  starts : ℕ → ℕ → ℕ → ℕ → Op
  main_starts : ℕ → ℕ → ℕ → ℕ → ℕ → Op
  exits : ℕ → Op
  joins : ℕ → Op

abbrev pub perform : ℕ → ℕ → Op → State → Run State
perform morestack back (calls to udata) s = cthread_call back to udata s
perform morestack back (tailcalls to udata) s = cthread_tailcall back to udata s
perform morestack back (yields udata) s = cthread_yield back udata s
perform morestack back (starts entry arg stack sz) s =
    cthread_start morestack back entry arg stack sz s
perform morestack back (main_starts m entry arg stack sz) s =
    cthread_main_start morestack back m entry arg stack sz s
perform morestack back (exits code) s = cthread_exit back code s
perform morestack back (joins t) s = do (value, s) ← cthread_join back t s; ok s

abbrev pub under : List ℕ → List ℕ
under [] = []
under (p ∷ xs) = xs

-- what the end of a thread leaves of the stack: the threads under it, and the one that joined it
abbrev pub after_exit : Option Thread → List ℕ → List ℕ
after_exit none xs = xs
after_exit (some t) xs = if t.exit_to == null then under xs else t.exit_to ∷ under xs

abbrev pub has_ended : Option Thread → Bool
has_ended none = false
has_ended (some t) = t.finished

-- the stack of running threads after an operation of the thread on top
abbrev pub after : Op → State → List ℕ → List ℕ
after (calls to udata) s xs = to ∷ xs
after (tailcalls to udata) s xs = to ∷ under xs
after (yields udata) s xs = under xs
after (starts entry arg stack sz) s xs = place stack sz ∷ xs
after (main_starts m entry arg stack sz) s xs = place stack sz ∷ xs
after (exits code) s xs = after_exit (s.thread s.self) xs
after (joins t) s xs = if has_ended (s.thread t) then xs else under xs

-- When the library asks that an operation be called: a thread is called if it is not running, starts on
-- memory that holds no thread, ends once, and does not join itself.
abbrev pub Allowed : Op → State → List ℕ → Type 0
Allowed (calls to udata) s xs = (t : Thread) × (s.thread to ≡ some t) × (has to xs ≡ false)
Allowed (tailcalls to udata) s xs =
    (s.self ≢ null) × ((t : Thread) × (s.thread to ≡ some t) × (has to xs ≡ false))
Allowed (yields udata) s xs = s.self ≢ null
Allowed (starts entry arg stack sz) s xs =
    (s.self ≢ null) × Fits stack sz s × (s.thread (place stack sz) ≡ none)
Allowed (main_starts m entry arg stack sz) s xs =
    (s.self ≡ null)
    × ((x : Main) × (s.main m ≡ some x))
    × Fits stack sz s
    × (s.thread (place stack sz) ≡ none)
Allowed (exits code) s xs =
    (t : Thread) × (s.thread s.self ≡ some t)
    × (t.finished ≡ false)
    × ((t.exit_to ≡ null)
        ⊎ ((j : Thread) × (s.thread t.exit_to ≡ some j) × (has t.exit_to xs ≡ false)))
Allowed (joins t) s xs = (s.self ≢ null) × (s.self ≢ t) × ((x : Thread) × (s.thread t ≡ some x))

-- whether a thread is one of the main `m`
abbrev pub runs_under : ℕ → Option Thread → Bool
runs_under m none = false
runs_under m (some t) = t.main == m

-- the threads of the main `m` that have not ended, after an operation
abbrev pub living : Op → State → ℕ → List ℕ → List ℕ
living (calls to udata) s m ts = ts
living (tailcalls to udata) s m ts = ts
living (yields udata) s m ts = ts
living (starts entry arg stack sz) s m ts =
    if runs_under m (s.thread s.self) then place stack sz ∷ ts else ts
living (main_starts n entry arg stack sz) s m ts = if n == m then place stack sz ∷ ts else ts
living (exits code) s m ts = remove s.self ts
living (joins t) s m ts = ts
