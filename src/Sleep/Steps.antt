-- ===== src/Sleep/Steps.antt =====
-- main.c and evloop.c: ev_step_timers over the timers of sleeping threads.
use cthread.Base.{
  ℕ, ◌≤◌, ◌<◌, ◌≡◌, ◌⊎◌, refl, true, ap, subst, List, [], ◌∷◌, Option, none, some, ◌==◌,
  if◌then◌else◌, arith,
}
use cthread.Word.{pos, sub32}
use cthread.Run.{Run, ok, fault, ◌>>=◌, Returns, returns, Returns-bind, Returns-map, Returns-with}
use cthread.Heap.{Heap}
use cthread.Heap.Links.{lookup}
use cthread.Threads.{Thread, State}
use cthread.Threads.Census.{life, Lives}
use cthread.Threads.Moves.{call-Running}
use cthread.Threads.Running.{Running}
use cthread.Timers.{Loop, Callback, next_timeout, ev_step_timers}
use cthread.Timers.Deadline.{IsReady}
use cthread.Timers.Step.{due, NoneDue, Contract, ev_step_timers-keeps}
use cthread.Sleep.{System, timer_wakeup}

-- what is beside the loop in a `System`
pub record Sleepers (T : Type 0) : Type 0 where
  pub threads : State
  pub timer_thread : ℕ → ℕ
  pub timer_arg : ℕ → ℕ
  pub rest : T

abbrev pub Exists : State → ℕ → Type 0
Exists s c = (u : Thread) × (s.thread c ≡ some u)

still_exists :
    (o p : Option Thread) (u : Thread) → o ≡ some u → life p ≡ life o → (v : Thread) × (p ≡ some v)
still_exists o none u h same = absurd (ground (arith, h, same))
still_exists o (some v) u h same = (v, refl)

module _ {T : Type 0} where
  abbrev pub with_threads : Loop (Sleepers T) → State → Loop (Sleepers T)
  with_threads e s = record e { rest = record (e.rest) { threads = s } }

  abbrev pub system : Loop (Sleepers T) → System (Sleepers T)
  system e = record {
    threads = e.rest.threads;
    loop = e;
    timer_thread = e.rest.timer_thread;
    timer_arg = e.rest.timer_arg;
  }

  -- A call of timer_wakeup, with what the threads then do until the call returns to the event loop, `run`.
  -- No timer has another function.
  unfoldable pub resume :
      ℕ → ℕ → (Loop (Sleepers T) → Run (Loop (Sleepers T))) → Callback (Sleepers T)
  resume back wakeup run f t e =
      let woken : Run (Loop (Sleepers T)) = do
        x ← timer_wakeup back t (system e)
        run (with_threads e x.threads)
      in if f == wakeup then woken else fault

  -- every timer that is armed is a thread's
  abbrev pub Owned : ℕ → Loop (Sleepers T) → Type 0
  Owned wakeup e =
      (t x : ℕ)
      → lookup e.timers t ≡ some x
      → (e.fn t ≡ wakeup) × Exists e.rest.threads (e.rest.timer_thread t)

  -- the main function is current, with room on its stack
  pub record Waiting (wakeup : ℕ) (e : Loop (Sleepers T)) : Type 0 where
    pub idle : Running e.rest.threads []
    pub room : 56 ≤ e.rest.threads.cpu.rsp
    pub owned : Owned wakeup e

  -- What is asked of the threads: one that has been woken gives control back to the event loop, and
  -- meanwhile they make no more timers due.
  abbrev pub GivesBack : ℕ → ℕ → (Loop (Sleepers T) → Run (Loop (Sleepers T))) → Type 0
  GivesBack o wakeup run =
      (e : Loop (Sleepers T)) (c : ℕ)
      → IsReady o e
      → Running e.rest.threads (c ∷ [])
      → Owned wakeup e
      → Returns (λ g. IsReady o g × (due o g ≤ due o e) × Waiting wakeup g) (run e)

  -- a timer that has been taken from the heap
  abbrev Taken : ℕ → ℕ → Loop (Sleepers T) → Type 0
  Taken wakeup t e =
      Waiting wakeup e × ((e.fn t ≡ wakeup) × Exists e.rest.threads (e.rest.timer_thread t))

  -- `t` is armed and due, no timer in the heap is earlier, and `h` is the heap without it.
  abbrev pub Next : ℕ → Loop (Sleepers T) → ℕ → Heap → Type 0
  Next o s t h =
      (x : ℕ) × (lookup s.timers t ≡ some x)
      × (sub32 x o ≤ sub32 s.now o)
      × ((n y : ℕ) → lookup s.timers n ≡ some y → sub32 x o ≤ sub32 y o)
      × ((n : ℕ) → lookup h n ≡ (if t == n then none else lookup s.timers n))

  -- From `e` on the threads of the timers `ts` have been woken, the last one first. Each time the timer
  -- is the next one that is due and is taken from the heap, then the thread stored with it runs on
  -- behalf of the main function, after timer_wakeup, and `run` leads from there to the next state.
  pub data Woken (back o : ℕ) (run : Loop (Sleepers T) → Run (Loop (Sleepers T)))
      (e : Loop (Sleepers T)) : List ℕ → Loop (Sleepers T) → Type 0 where
    nobody : Woken back o run e [] e
    wakes :
        {ts : List ℕ} {s f g : Loop (Sleepers T)} {t : ℕ} {x : System (Sleepers T)}
        → Woken back o run e ts s
        → Next o s t f.timers
        → f ≡ record s { timers = f.timers }
        → timer_wakeup back t (system f) ≡ ok x
        → Running x.threads (s.rest.timer_thread t ∷ [])
        → run (with_threads f x.threads) ≡ ok g
        → Woken back o run e (t ∷ ts) g

  module _ (back wakeup o : ℕ) (run : Loop (Sleepers T) → Run (Loop (Sleepers T)))
      (gives : GivesBack o wakeup run) where
    -- a call of timer_wakeup and what the woken thread does
    abbrev Wakes : ℕ → Loop (Sleepers T) → Loop (Sleepers T) → Type 0
    Wakes t e g =
        (x : System (Sleepers T)) × (timer_wakeup back t (system e) ≡ ok x)
        × Running x.threads (e.rest.timer_thread t ∷ [])
        × (run (with_threads e x.threads) ≡ ok g)

    timer_wakeup-Running :
        (e : Loop (Sleepers T)) (t : ℕ)
        → Taken wakeup t e
        → Returns
            (λ x. Running x.threads (e.rest.timer_thread t ∷ []) × Lives e.rest.threads x.threads)
            (timer_wakeup back t (system e))
    unfolding timer_wakeup
    timer_wakeup-Running e t (w, (own, (u, held))) =
        Returns-bind
          (call-Running w.idle back w.room (e.rest.timer_thread t) (e.rest.timer_arg t) u held refl)
          λ g p. returns p

    resume_lem :
        (e : Loop (Sleepers T)) (t : ℕ)
        → IsReady o e
        → Taken wakeup t e
        → Returns
            (λ g. (IsReady o g × (due o g ≤ due o e) × Waiting wakeup g) × Wakes t e g)
            (resume back wakeup run (e.fn t) t e)
    unfolding resume
    resume_lem e t ready (w, (own, waits)) =
        let mine : (e.fn t == wakeup) ≡ true = ground arith in
        let s = e.rest.threads in
        rw mine (
          Returns-bind (Returns-with (timer_wakeup-Running e t (w, (own, waits))))
            λ x ((runs, lives), woken).
              Returns-map
                (Returns-with (
                  gives (with_threads e x.threads) (e.rest.timer_thread t)
                    (record { queue = ready.queue; clock = ready.clock; set = ready.set }) runs
                    (λ n y armed.
                      let (fn, (v, here)) = w.owned n y armed in
                      let a = e.rest.timer_thread n in
                      (
                        fn,
                        still_exists (s.thread a) (x.threads.thread a) v here (lives.threads a),
                      ))))
                λ g (after, ran). (after, (x, woken, runs, ran)))

    module _ (e : Loop (Sleepers T)) where
      abbrev Before : Loop (Sleepers T) → Type 0
      Before g = Waiting wakeup g × ((ts : List ℕ) × Woken back o run e ts g)

      -- `f` is a state before, without the timer that was next
      abbrev Between : ℕ → Loop (Sleepers T) → Type 0
      Between t f =
          Taken wakeup t f
          × ((ts : List ℕ) × (s : Loop (Sleepers T)) × Woken back o run e ts s
              × Next o s t f.timers
              × (f ≡ record s { timers = f.timers }))

      sleepers-Contract : Contract o (resume back wakeup run) Before Between
      sleepers-Contract = record {
        takes = λ s h t x (w, (ts, past)) armed passed least items. (
          (
            record {
              idle = w.idle;
              room = w.room;
              owned = λ n y f. w.owned n y (ground (arith, items n));
            },
            w.owned t x armed,
          ),
          (ts, s, past, (x, armed, passed, least, items), refl),
        );
        behaves = λ f t ready gone (taken, (ts, s, past, next, same)).
            Returns-map (resume_lem f t ready taken) λ g ((r, n, w), (x, woken, runs, ran)).
              let who : f.rest.timer_thread t ≡ s.rest.timer_thread t =
                ap (λ (k : Loop (Sleepers T)). k.rest.timer_thread t) same in
              let on : Running x.threads (s.rest.timer_thread t ∷ []) =
                subst (λ c. Running x.threads (c ∷ [])) who runs in
              (r, n, (w, (t ∷ ts, wakes past next same woken on ran)));
      }

      -- Let every timer be a sleeping thread's, and let each thread that is woken give control back.
      -- Then ev_step_timers returns without a fault for every fuel above the number of timers that are
      -- due. There is a list of timers, each in its turn armed, due and the earliest: ev_step_timers has
      -- taken each from the heap and called timer_wakeup, which resumed the thread stored with the timer,
      -- and the loop it leaves is the one that the last thread gave back. The main function is current
      -- again then, every timer is a sleeping thread's, and no timer is due. The result is 0, or nothing
      -- is changed and the result is next_timeout's.
      pub ev_step_timers-resume :
          (fuel : ℕ)
          → IsReady o e
          → due o e < fuel
          → Waiting wakeup e
          → Returns
              (λ (z, g).
                IsReady o g
                × NoneDue o g
                × (Waiting wakeup g × ((ts : List ℕ) × Woken back o run e ts g))
                × ((z ≡ pos 0) ⊎ ((g ≡ e) × (next_timeout e ≡ ok z))))
              (ev_step_timers (resume back wakeup run) fuel e)
      ev_step_timers-resume fuel ready f w =
          ev_step_timers-keeps (resume back wakeup run) sleepers-Contract fuel e ready f
            (w, ([], nobody))
