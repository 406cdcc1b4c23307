-- ===== src/Poll/Branches.antt =====
-- evloop.epoll.c: evloop_step on all its branches.
use cthread.Base.{
  length, ℕ, ◌+◌, ◌*◌, ◌/◌, ◌%◌, ◌^◌, ◌<◌, subst, true, false, List, [], Option, none, some, ◌≡◌,
  refl, sym, ◌∙◌, arith, Bool-cases, inl, inr,
}
use cthread.Word.{ℤ, pos, negsuc, is_zero}
use cthread.Run.{ok, ok-inj, Returns, returns, Returns-map, Returns-bind, Returns-with}
use cthread.Timers.{Loop, Callback, ev_step_timers}
use cthread.Timers.Deadline.{IsReady, wait, next_timeout_lem}
use cthread.Timers.Step.{Contract, NoneDue, due, ev_step_timers-keeps}
use cthread.Poll.{Polls, KHash}
use cthread.Poll.Inv.{Chain, nil, Memory}
use cthread.Poll.Flush.{Flushed, flush_lem}
use cthread.Poll.Deliver.{Delivered, dispatch_all-Delivered}
use cthread.Poll.Step.{Event, Answer, get_ticks, try_again, wait_step, evloop_step}
use cthread.Poll.Dispatch.{Awake, Wakes, Open, Flushed-Armed, evloop_step_lem}

-- What evloop_step does when timers are due, when the kernel fails and when it answers, on a loop `e`
-- whose dirty list runs through `xs`, at the time `sec` and `nsec`.
pub data Outcome (k : KHash) (call : Callback (Polls k.Table)) (o fuel sec nsec : ℕ)
    (e : Loop (Polls k.Table)) (xs : List ℕ) (answer : Option (List Event))
    : ℤ × Loop (Polls k.Table) → Type 0 where
  fired :
      {g : Loop (Polls k.Table)}
      → is_zero (wait o e) ≡ true
      → IsReady o g
      → NoneDue o g
      → ev_step_timers call fuel e ≡ ok (pos 0, g)
      → Outcome k call o fuel sec nsec e xs answer (pos 0, g)
  refused :
      {g : Loop (Polls k.Table)}
      → is_zero (wait o e) ≡ false
      → answer ≡ none
      → IsReady o g
      → g.timers ≡ e.timers
      → g.fn ≡ e.fn
      → g.now ≡ e.now
      → Flushed e.rest xs g.rest
      → g.rest.dirty_list ≡ 0
      → Outcome k call o fuel sec nsec e xs answer (negsuc 0, g)
  answered :
      {s : Polls k.Table} {g : Loop (Polls k.Table)} {events : List Event}
      → is_zero (wait o e) ≡ false
      → answer ≡ some events
      → Flushed e.rest xs s
      → Delivered call events
          (record e { rest = s; now = (sec * 1000 + nsec / 1000000) % 2 ^ 32 })
          g
      → Outcome k call o fuel sec nsec e xs answer (pos 0, g)

get_ticks_lem : (sec nsec : ℕ) → get_ticks sec nsec ≡ (sec * 1000 + nsec / 1000000) % 2 ^ 32
unfolding get_ticks
get_ticks_lem sec nsec = omega arith

-- the events of an answer are for open polls
abbrev pub OpenAnswer : {T : Type 0} → Option (List Event) → Polls T → Type 0
OpenAnswer none s = Unit
OpenAnswer (some events) s = Open events s

is_zero-inv : (z : ℤ) → is_zero z ≡ true → z ≡ pos 0
is_zero-inv (pos n) h = ground arith
is_zero-inv (negsuc n) h = cc

Chain-end : {m : Memory} {p : ℕ} → Chain m p [] → p ≡ 0
Chain-end nil = refl

module _ (k : KHash) (call : Callback (Polls k.Table)) {o : ℕ}
    {J : ℕ → Loop (Polls k.Table) → Type 0} (timers : Contract o call (Awake k) J)
    (watches : Wakes k call) where
  fires :
      (e : Loop (Polls k.Table)) (fuel dirty_fuel sec nsec : ℕ) (answers : List Answer)
      (answer : Option (List Event)) (a : Awake k e)
      → IsReady o e
      → due o e < fuel
      → is_zero (wait o e) ≡ true
      → Returns
          (λ r. Awake k r.1 × Outcome k call o fuel sec nsec e a.list answer r)
          (evloop_step call fuel dirty_fuel answers sec nsec e)
  unfolding evloop_step
  fires e fuel dirty_fuel sec nsec answers answer a r enough now =
      Returns-bind (Returns-with (ev_step_timers-keeps call timers fuel e r enough a))
        λ (z, g) ((ready, none_due, awake, out), ends).
          let is : z ≡ pos 0 = elim out [
            | inl is ↦ is
            | inr (same, next) ↦
                let waits : wait o e ≡ z = ok-inj (sym (next_timeout_lem {o = o} e r) ∙ next) in
                sym waits ∙ is_zero-inv (wait o e) now
          ] in
          let timers_ran : ev_step_timers call fuel e ≡ ok (pos 0, g) = rw is at ends in
          rw is (returns (awake, fired now ready none_due timers_ran))

  refuses :
      (e : Loop (Polls k.Table)) (fuel dirty_fuel sec nsec : ℕ) (answers : List Answer)
      (a : Awake k e)
      → IsReady o e
      → length a.list < dirty_fuel
      → try_again answers ≡ ok none
      → is_zero (wait o e) ≡ false
      → Returns
          (λ r. Awake k r.1 × Outcome k call o fuel sec nsec e a.list none r)
          (evloop_step call fuel dirty_fuel answers sec nsec e)
  unfolding evloop_step wait_step ev_step_timers
  refuses e fuel dirty_fuel sec nsec answers a r enough ends later =
      rw (next_timeout_lem {o = o} e r, later, later)
        (Returns-bind (flush_lem k a.inv dirty_fuel enough) λ s (inv, f). rw ends (
          returns (
            record { list = []; inv = inv; armed = Flushed-Armed f a.armed },
            refused later refl (record { queue = r.queue; clock = r.clock; set = r.set }) refl refl
                refl f (Chain-end inv.chain),
          )))

  answers_events :
      (e : Loop (Polls k.Table)) (fuel dirty_fuel sec nsec : ℕ) (answers : List Answer)
      (events : List Event) (a : Awake k e)
      → IsReady o e
      → length a.list < dirty_fuel
      → try_again answers ≡ ok (some events)
      → Open events e.rest
      → is_zero (wait o e) ≡ false
      → Returns
          (λ r. Awake k r.1 × Outcome k call o fuel sec nsec e a.list (some events) r)
          (evloop_step call fuel dirty_fuel answers sec nsec e)
  answers_events e fuel dirty_fuel sec nsec answers events a r enough ends opens later =
      Returns-map
        (evloop_step_lem k call watches {o = o} e a.list fuel dirty_fuel sec nsec answers events r
          later a.inv a.armed enough ends opens)
        λ (z, g) (is, awake, (s, f, ran)).
          let told = dispatch_all-Delivered call events _ g ran in
          let from = λ (n : ℕ). Delivered call events (record e { rest = s; now = n }) g in
          (awake, rw is (answered later refl f (subst from (get_ticks_lem sec nsec) told)))

  by_answer :
      (e : Loop (Polls k.Table)) (fuel dirty_fuel sec nsec : ℕ) (answers : List Answer)
      (answer : Option (List Event)) (a : Awake k e)
      → IsReady o e
      → length a.list < dirty_fuel
      → try_again answers ≡ ok answer
      → OpenAnswer answer e.rest
      → is_zero (wait o e) ≡ false
      → Returns
          (λ r. Awake k r.1 × Outcome k call o fuel sec nsec e a.list answer r)
          (evloop_step call fuel dirty_fuel answers sec nsec e)
  by_answer e fuel dirty_fuel sec nsec answers none a r enough ends opens later =
      refuses e fuel dirty_fuel sec nsec answers a r enough ends later
  by_answer e fuel dirty_fuel sec nsec answers (some events) a r enough ends opens later =
      answers_events e fuel dirty_fuel sec nsec answers events a r enough ends opens later

  -- Let the loop be well formed and every watch of a poll have a function, let the functions of the
  -- timers and of the watches behave, and let the kernel answer in the end, with an error or with
  -- events whose pointers are polls of open descriptors; let there be more fuel than timers are due, and
  -- than polls are dirty. Then evloop_step returns without a fault. If a timer was due it returns 0 and
  -- what ev_step_timers leaves, where no timer in the heap is due. Else it goes through the dirty list,
  -- which is empty then. If the kernel fails it returns -1, with the timers, their functions and the
  -- clock as before. If the kernel answers it sets the clock to the new time, calls for each event in
  -- order the functions of the poll's watches that the event is for, and returns 0 and what they
  -- leave. On all branches the polls are well formed, and every watch of a poll has a function.
  pub evloop_step-Outcome :
      (e : Loop (Polls k.Table)) (fuel dirty_fuel sec nsec : ℕ) (answers : List Answer)
      (answer : Option (List Event)) (a : Awake k e)
      → IsReady o e
      → due o e < fuel
      → length a.list < dirty_fuel
      → try_again answers ≡ ok answer
      → OpenAnswer answer e.rest
      → Returns
          (λ r. Awake k r.1 × Outcome k call o fuel sec nsec e a.list answer r)
          (evloop_step call fuel dirty_fuel answers sec nsec e)
  evloop_step-Outcome e fuel dirty_fuel sec nsec answers answer a r some_fuel enough ends opens =
      elim (Bool-cases (is_zero (wait o e))) [
        | inl now ↦ fires e fuel dirty_fuel sec nsec answers answer a r some_fuel now
        | inr later ↦
            by_answer e fuel dirty_fuel sec nsec answers answer a r enough ends opens later
      ]
