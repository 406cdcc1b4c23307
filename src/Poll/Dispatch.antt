-- ===== src/Poll/Dispatch.antt =====
-- evloop.epoll.c: the events of the kernel, and the polls that they point at.
use cthread.Base.{
  has, length, ℕ, ◌<◌, Bool, true, false, ◌&&◌, ◌||◌, not, List, [], ◌∷◌, Option, none, some, ◌≡◌,
  ◌≢◌, ◌⊎◌, ◌==◌, refl, if◌then◌else◌, arith, Bool-cases, inl, inr,
}
use cthread.Word.{pos, is_zero}
use cthread.Run.{ok, Returns, returns, Returns-map, Returns-bind, Returns-if, Returns-with}
use cthread.Timers.{Loop, Callback, invoke, ev_step_timers}
use cthread.Timers.Deadline.{IsReady, wait, next_timeout_lem}
use cthread.Poll.{null, Poll, Polls, KHash, is_open, load_poll}
use cthread.Poll.Inv.{PollInv}
use cthread.Poll.Flush.{swept-open, Flushed, flush_lem, swept}
use cthread.Poll.Step.{
  Event, Answer, try_again, wake, dispatch, dispatch_all, wait_step, evloop_step, get_ticks,
}

-- every watch of a poll has a function
abbrev pub Armed : {T : Type 0} → Polls T → Type 0
Armed s =
    (p : ℕ) (q : Poll) (w : ℕ)
    → s.poll p ≡ some q
    → (q.rd ≡ w) ⊎ (q.wr ≡ w)
    → w ≢ null
    → s.watch_fn w ≢ null

-- no poll is freed
abbrev pub Keeps : {T : Type 0} → Polls T → Polls T → Type 0
Keeps s g = (p : ℕ) (q : Poll) → s.poll p ≡ some q → (r : Poll) × (g.poll p ≡ some r)

pub load_poll-ok :
    {T : Type 0} (s : Polls T) (p : ℕ) (q : Poll) → s.poll p ≡ some q → load_poll s p ≡ ok q
unfolding load_poll
load_poll-ok s p q h = rw (load_poll, h) refl

-- the polls of all events are allocated
abbrev pub Allocated : {T : Type 0} → List Event → Polls T → Type 0
Allocated [] s = Unit
Allocated (v ∷ vs) s = ((q : Poll) × (s.poll v.ptr ≡ some q)) × Allocated vs s

-- the polls of all events are of open descriptors
abbrev pub Open : {T : Type 0} → List Event → Polls T → Type 0
Open [] s = Unit
Open (v ∷ vs) s = ((q : Poll) × (s.poll v.ptr ≡ some q) × (is_open q.fd ≡ true)) × Open vs s

Allocated-Keeps :
    {T : Type 0} (s g : Polls T) (vs : List Event) → Keeps s g → Allocated vs s → Allocated vs g
Allocated-Keeps s g [] kept h = tt
Allocated-Keeps s g (v ∷ vs) kept ((q, h), hs) = (kept v.ptr q h, Allocated-Keeps s g vs kept hs)

swept-sides :
    (m : Option Poll) (r : Poll)
    → swept m ≡ some r
    → (q : Poll) × (m ≡ some q) × (q.rd ≡ r.rd) × (q.wr ≡ r.wr)
swept-sides none r h = cc
swept-sides (some q) r h = (q, refl, ground arith, ground arith)

module _ {T : Type 0} {s g : Polls T} {xs : List ℕ} (f : Flushed s xs g) where
  pub Flushed-Armed : Armed s → Armed g
  Flushed-Armed armed p q w h mine nz = elim (Bool-cases (has p xs)) [
    | inl old ↦
        let (r, held, rd, wr) = swept-sides (s.poll p) q (ground (arith, f.polls p)) in
        rw f.watch_fn (armed p r w held (ground arith) nz)
    | inr new ↦ rw f.watch_fn (armed p q w (ground (arith, f.polls p)) mine nz)
  ]

  Flushed-one :
      (p : ℕ) (q : Poll)
      → s.poll p ≡ some q
      → is_open q.fd ≡ true
      → (r : Poll) × (g.poll p ≡ some r)
  Flushed-one p q h o = elim (Bool-cases (has p xs)) [
    | inl old ↦ let (r, e) = swept-open q o in (r, ground (arith, f.polls p))
    | inr new ↦ (q, ground (arith, f.polls p))
  ]

  Flushed-Allocated : (vs : List Event) → Open vs s → Allocated vs g
  Flushed-Allocated [] h = tt
  Flushed-Allocated (v ∷ vs) ((q, h, o), hs) = (Flushed-one v.ptr q h o, Flushed-Allocated vs hs)

module _ (k : KHash) where
  pub record Awake (e : Loop (Polls k.Table)) : Type 0 where
    pub list : List ℕ
    pub inv : PollInv k e.rest list
    pub armed : Armed e.rest

  -- what comes of an event
  abbrev pub Goes : Loop (Polls k.Table) → Loop (Polls k.Table) → Type 0
  Goes e g = Awake g × Keeps e.rest g.rest

  -- What the functions of the watches may do, once for each call: they return, keep the polls well
  -- formed and every watch of a poll with a function, and free no poll. They may watch, unwatch and
  -- close descriptors.
  abbrev pub Wakes : Callback (Polls k.Table) → Type 0
  Wakes call =
      (e : Loop (Polls k.Table)) (w : ℕ)
      → Awake e
      → e.rest.watch_fn w ≢ null
      → Returns (Goes e) (call (e.rest.watch_fn w) w e)

module _ (k : KHash) (call : Callback (Polls k.Table)) (b : Wakes k call) where
  stays : (e : Loop (Polls k.Table)) → Awake k e → Goes k e e
  stays e a = (a, λ p q h. (q, h))

  wake_one :
      (e : Loop (Polls k.Table)) (p w : ℕ) (q : Poll) (events : Bool)
      → Awake k e
      → e.rest.poll p ≡ some q
      → (q.rd ≡ w) ⊎ (q.wr ≡ w)
      → Returns (Goes k e) (if not (w == null) && events then wake call w e else ok e)
  unfolding wake invoke
  wake_one e p w q events a h mine =
      Returns-if (not (w == null) && events)
        (λ t.
          let nz : w ≢ null = ground arith in
          let fn = a.armed p q w h mine nz in
          let some_fn : (e.rest.watch_fn w == null) ≡ false = ground arith in
          rw some_fn (b e w a fn))
        (λ f. returns (stays e a))

  dispatch_lem :
      (v : Event) (q : Poll) (e : Loop (Polls k.Table))
      → Awake k e
      → e.rest.poll v.ptr ≡ some q
      → Returns (Goes k e) (dispatch call v e)
  unfolding dispatch
  dispatch_lem v q e a h = rw (load_poll-ok e.rest v.ptr q h) (
      Returns-bind (wake_one e v.ptr q.rd q (v.events.rd || v.events.hup) a h (inl refl))
        λ e1 (a1, kept).
          let (q1, h1) = kept v.ptr q h in
          rw (load_poll-ok e1.rest v.ptr q1 h1) (
            Returns-map (wake_one e1 v.ptr q1.wr q1 v.events.wr a1 h1 (inr refl))
              λ g (a2, kept2). (a2, λ p r x. let (y, z) = kept p r x in kept2 p y z)))

  dispatch_all_lem :
      (vs : List Event) (e : Loop (Polls k.Table))
      → Awake k e
      → Allocated vs e.rest
      → Returns (Goes k e) (dispatch_all call vs e)
  unfolding dispatch_all
  dispatch_all_lem [] e a h = returns (stays e a)
  dispatch_all_lem (v ∷ vs) e a ((q, h), hs) =
      Returns-bind (dispatch_lem v q e a h) λ e1 (a1, kept).
        Returns-map (dispatch_all_lem vs e1 a1 (Allocated-Keeps e.rest e1.rest vs kept hs))
          λ g (a2, kept2). (a2, λ p r x. let (y, z) = kept p r x in kept2 p y z)

  -- On a well-formed loop without a due timer, whose watches have functions, let the kernel answer, after
  -- any number of interruptions, with events whose pointers are polls of open descriptors, and let the
  -- functions behave. With more fuel than dirty polls, evloop_step returns 0 without a fault: it reads
  -- no poll that was freed and calls no NULL. The polls are well formed then, and every watch of a
  -- poll has a function; and the loop over the events led there from the state that the loop over
  -- the dirty list left, at the new time.
  pub evloop_step_lem :
      {o : ℕ} (e : Loop (Polls k.Table)) (xs : List ℕ) (fuel dirty_fuel sec nsec : ℕ)
      (answers : List Answer) (events : List Event)
      → IsReady o e
      → is_zero (wait o e) ≡ false
      → PollInv k e.rest xs
      → Armed e.rest
      → length xs < dirty_fuel
      → try_again answers ≡ ok (some events)
      → Open events e.rest
      → Returns
          (λ (z, g).
            (z ≡ pos 0)
            × Awake k g
            × ((s : Polls k.Table) × Flushed e.rest xs s
                × (dispatch_all call events (record e { rest = s; now = get_ticks sec nsec })
                    ≡ ok g)))
          (evloop_step call fuel dirty_fuel answers sec nsec e)
  unfolding evloop_step wait_step ev_step_timers
  evloop_step_lem {o} e xs fuel dirty_fuel sec nsec answers events r quiet inv armed enough answer
        open_polls =
      rw (next_timeout_lem {o = o} e r, quiet, quiet)
        (Returns-bind (flush_lem k inv dirty_fuel enough) λ s (inv2, f).
          let e2 : Loop (Polls k.Table) = record e { rest = s; now = get_ticks sec nsec } in
          let a : Awake k e2 = record { list = []; inv = inv2; armed = Flushed-Armed f armed } in
          rw answer (
            Returns-bind
              (Returns-with (dispatch_all_lem events e2 a (Flushed-Allocated f events open_polls)))
              λ g ((a2, kept), ends). returns (refl, a2, (s, f, ends))))
