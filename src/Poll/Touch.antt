-- ===== src/Poll/Touch.antt =====
-- evloop.epoll.c: a change of a poll followed by mark_dirty keeps the invariant.
use cthread.Base.{
  ℕ, true, List, some, ◌≡◌, ◌≢◌, ◌==◌, arith, Bool-cases, inl, inr, sym, ap, subst, ◌∙◌,
}
use cthread.Run.{Returns}
use cthread.Poll.{null, Poll, Polls, KHash, is_open, mark_dirty, set_poll}
use cthread.Poll.Inv.{Chain-frame, PollInv, IsPollOf, not-has}
use cthread.Poll.Dirty.{Touched, mark_dirty-Touched}

module _ (k : KHash) (s : Polls k.Table) (xs : List ℕ) (inv : PollInv k s xs) (p : ℕ) (q : Poll)
    (e : s.poll p ≡ some q) where
  pub p-ne-null : p ≢ null
  p-ne-null h = ground (arith, inv.null_free)

  -- A write to a poll that keeps its flags and link, and then mark_dirty.
  pub touch :
      (q' : Poll)
      → q'.flags ≡ q.flags
      → q'.next ≡ q.next
      → Returns (Touched (set_poll s p q') xs p q') (mark_dirty p (set_poll s p q'))
  touch q' f n =
      mark_dirty-Touched (set_poll s p q') xs p q' (Chain-frame inv.chain λ a i. ground arith)
        (ground arith) p-ne-null (λ d. (inv.each p q e).listed (ground arith))
        (λ d. not-has k inv p q e (ground arith))

  -- If it keeps the descriptor too, the invariant holds again.
  pub touch-PollInv :
      (q' : Poll) (g : Polls k.Table)
      → q'.fd ≡ q.fd
      → is_open q.fd ≡ true
      → (t : Touched (set_poll s p q') xs p q' g) → PollInv k g t.list
  touch-PollInv q' g f o t = record {
    chain = t.chain;
    null_free = ground (arith, t.others null, inv.null_free, p-ne-null);
    each = λ a r h. elim (Bool-cases (p == a)) [
      | inl same ↦
          let is : r ≡ t.node = ground (arith, t.here) in
          let a_p : a ≡ p = ground arith in
          let ok_p = inv.each p q e in
          record {
            listed = λ d. ground (arith, t.has_p);
            found = λ u.
                let fd_eq : r.fd ≡ q.fd = ground (arith, t.fd) in
                rw (t.pollers, fd_eq, a_p) (ok_p.found o);
            closed = λ u. ground (arith, t.fd);
          }
      | inr other ↦
          let ne : p ≢ a = ground arith in
          let before : s.poll a ≡ some r = ground (arith, t.others a ne) in
          let ok_a = inv.each a r before in
          record {
            listed = λ d. t.has_other a ne ∙ ok_a.listed d;
            found = λ u. rw t.pollers (ok_a.found u);
            closed = ok_a.closed;
          }
    ];
    table = λ fd a h.
        let old = inv.table fd a (rw (sym t.pollers) h) in
        elim (Bool-cases (p == a)) [
          | inl same ↦
              let a_p : a ≡ p = ground arith in
              let held : IsPollOf fd (some q) = subst (IsPollOf fd) (ap s.poll a_p ∙ e) old in
              subst (IsPollOf fd) (sym (ap g.poll a_p ∙ t.here)) (t.fd ∙ f ∙ held.0, held.1)
          | inr other ↦ ground (arith, t.others a)
        ];
  }
