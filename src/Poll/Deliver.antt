-- ===== src/Poll/Deliver.antt =====
-- evloop.epoll.c: which functions of watches the loop over the events calls, and in which state.
use cthread.Base.{
  ℕ, Bool, true, false, ◌&&◌, ◌||◌, not, List, [], ◌∷◌, some, ◌≡◌, ◌≢◌, ◌⊎◌, ◌==◌, arith,
  if◌then◌else◌, Bool-cases, inl, inr, subst,
}
use cthread.Run.{ok, ok-inj, bind-inv}
use cthread.Timers.{Loop, Callback, invoke}
use cthread.Poll.{null, Poll, Polls, load_poll}
use cthread.Poll.Step.{Event, wake, dispatch, dispatch_all}

module _ {T : Type 0} where
  -- One side of an event, for the watch `w` or NULL: its function is called if there is a watch and
  -- `ready` holds, and else nothing happens.
  pub data Sided (call : Callback (Polls T)) (w : ℕ) (ready : Bool) (e : Loop (Polls T))
      : Loop (Polls T) → Type 0 where
    calls :
        {g : Loop (Polls T)}
        → w ≢ null
        → ready ≡ true
        → call (e.rest.watch_fn w) w e ≡ ok g
        → Sided call w ready e g
    passes : (w ≡ null) ⊎ (ready ≡ false) → Sided call w ready e e

  -- What the events do, one after the other: the poll is read, then the watch of its reading side is
  -- served if the event says that the descriptor can be read or has been hung up, then the poll is read
  -- again, and the watch of its writing side is served if the descriptor can be written.
  pub data Delivered (call : Callback (Polls T))
      : List Event → Loop (Polls T) → Loop (Polls T) → Type 0 where
    done : {e : Loop (Polls T)} → Delivered call [] e e
    delivers :
        {v : Event} {vs : List Event} {e f g h : Loop (Polls T)} {q r : Poll}
        → e.rest.poll v.ptr ≡ some q
        → Sided call q.rd (v.events.rd || v.events.hup) e f
        → f.rest.poll v.ptr ≡ some r
        → Sided call r.wr v.events.wr f g
        → Delivered call vs g h
        → Delivered call (v ∷ vs) e h

  load_poll-inv : (s : Polls T) (p : ℕ) (q : Poll) → load_poll s p ≡ ok q → s.poll p ≡ some q
  unfolding load_poll
  load_poll-inv s p q h = ground arith

  module _ (call : Callback (Polls T)) where
    wake-inv :
        (w : ℕ) (e g : Loop (Polls T)) → wake call w e ≡ ok g → call (e.rest.watch_fn w) w e ≡ ok g
    unfolding wake invoke
    wake-inv w e g h = ground arith

    wake-Sided :
        (w : ℕ) (ready : Bool) (e g : Loop (Polls T))
        → (if not (w == null) && ready then wake call w e else ok e) ≡ ok g
        → Sided call w ready e g
    wake-Sided w ready e g h = elim (Bool-cases (not (w == null) && ready)) [
      | inl on ↦
          let woken : wake call w e ≡ ok g = rw on at h in
          calls (ground arith) (ground arith) (wake-inv w e g woken)
      | inr off ↦
          let same : e ≡ g = ok-inj (rw off at h) in
          subst (λ f. Sided call w ready e f) same (passes (ground arith))
    ]

    pub dispatch_all-Delivered :
        (vs : List Event) (e g : Loop (Polls T))
        → dispatch_all call vs e ≡ ok g
        → Delivered call vs e g
    unfolding dispatch_all dispatch
    dispatch_all-Delivered [] e g h = subst (λ f. Delivered call [] e f) (ok-inj h) done
    dispatch_all-Delivered (v ∷ vs) e h ends =
        let (g, one, rest) = bind-inv (dispatch call v e) (dispatch_all call vs) h ends in
        let (q, at, one) = bind-inv (load_poll e.rest v.ptr) _ g one in
        let (f, read, one) = bind-inv _ _ g one in
        let (r, again, write) = bind-inv (load_poll f.rest v.ptr) _ g one in
        delivers (load_poll-inv e.rest v.ptr q at)
          (wake-Sided q.rd (v.events.rd || v.events.hup) e f read)
          (load_poll-inv f.rest v.ptr r again) (wake-Sided r.wr v.events.wr f g write)
          (dispatch_all-Delivered vs g h rest)
