-- ===== src/Poll/Stale.antt =====
-- evloop.epoll.c: ev_unwatch of a watch whose descriptor has been closed.
use cthread.Base.{
  ℕ, Bool, true, false, ◌||◌, List, none, some, ◌≡◌, ◌≢◌, ◌==◌, refl, arith, sym, ◌∙◌,
}
use cthread.Word.{ℤ}
use cthread.Run.{fault, Returns, Returns-map}
use cthread.Poll.{null, Poll, Polls, KHash, is_open, load_poll, ev_unwatch, ev_close}
use cthread.Poll.Inv.{held_poll}
use cthread.Poll.Kernel.{Epoll}
use cthread.Poll.Touch.{p-ne-null}
use cthread.Poll.Close.{ev_close-Touched}
use cthread.Poll.View.{Watches, open_poll}
use cthread.Timers.{Loop}
use cthread.Poll.Step.{evloop_init}
use cthread.Poll.Op.{Follows}
use cthread.Poll.Reach.{Reached, Reached-Follows}

-- a watch that points at a poll that does not have it
ev_unwatch-fault :
    {T : Type 0} (g : Polls T) (w p : ℕ) (q : Poll)
    → g.poll_data w ≡ p
    → p ≢ null
    → g.poll p ≡ some q
    → q.rd ≢ w
    → q.wr ≢ w
    → ev_unwatch w g ≡ fault
unfolding ev_unwatch load_poll
ev_unwatch-fault g w p q at nz held no_rd no_wr =
    let some_poll : (p == null) ≡ false = ground arith in
    let test : (q.rd == w || q.wr == w) ≡ false = ground arith in
    rw (at, some_poll, load_poll, held, test) refl

module _ (k : KHash) (e : Epoll) {s : Polls k.Table} {xs : List ℕ} {v : Watches}
    (h : Follows k e s xs v) where
  after_close :
      (fd : ℤ) (read : Bool)
      → v fd read ≢ null
      → Returns (λ g. ev_unwatch (v fd read) g ≡ fault) (ev_close k fd s)
  after_close fd read nz =
      let w : ℕ = v fd read in
      let p : ℕ = s.poll_data w in
      let found = h.linked fd read nz in
      let (q, held, is) = held_poll fd (s.poll p) (h.inv.table fd p found) in
      let (q2, held2, o) = open_poll fd (s.poll p) (h.inv.table fd p found) in
      let same : q2 ≡ q = ground (arith, held) in
      let open_fd : is_open fd ≡ true = rw (← is, ← same) o in
      let p_nz = p-ne-null k s xs h.inv p q held in
      Returns-map (ev_close-Touched k h.inv fd p q found held is open_fd) λ g (c, t, eq, inv_g).
        let at : g.poll_data w ≡ p = rw (eq, t.poll_data) refl in
        let here : g.poll p ≡ some t.node = rw eq t.here in
        ev_unwatch-fault g w p t.node at p_nz here (λ z. nz (sym z ∙ t.rd)) (λ z. nz (sym z ∙ t.wr))

module _ (k : KHash) (e : Epoll) (sec nsec : ℕ) (l : Loop (Polls k.Table))
    (fresh : (a : ℕ) → l.rest.poll a ≡ none)
    (unused : (fd : ℤ) → e.interest l.rest.calls fd ≡ none) where
  -- In every state that a program reaches from evloop_init by setting the functions of watches, by
  -- watching, unwatching and closing descriptors and by the loop over the dirty list, where each
  -- operation is allowed: if ev_close closes a descriptor with a watch, it returns, and ev_unwatch of
  -- that watch in the state that it leaves is a fault, since the watch still points at the poll, which
  -- no longer has it.
  pub ev_unwatch-ev_close :
      (s : Polls k.Table) (v : Watches)
      → Reached k (evloop_init k sec nsec l).rest s v
      → (fd : ℤ) (read : Bool) → v fd read ≢ null
      → Returns (λ g. ev_unwatch (v fd read) g ≡ fault) (ev_close k fd s)
  ev_unwatch-ev_close s v r fd read nz =
      let (xs, h) = Reached-Follows k e sec nsec l fresh unused s v r in
      after_close k e h fd read nz
