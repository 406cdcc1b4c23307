-- ===== src/Poll/Known.antt =====
-- evloop.epoll.c: ev_watch and ev_unwatch keep what the kernel knows: a poll that they change waits on
-- the dirty list.
use cthread.Base.{
  has, ℕ, true, false, List, none, some, ◌≡◌, ◌≢◌, ◌==◌, inl, inr, refl, arith, Bool-cases, sym, ap,
  ◌∙◌,
}
use cthread.Word.{ℤ}
use cthread.Poll.{null, Poll, Polls, KHash, is_open, set_poll, no_bits, any_bits, wanted}
use cthread.Poll.Inv.{IsPlain, PollInv, poll_at, side, distinct}
use cthread.Poll.Dirty.{Touched}
use cthread.Poll.Obtain.{Obtained}
use cthread.Poll.Kernel.{Epoll, Told}

module _ (e : Epoll) {T : Type 0} {s : Polls T} {xs : List ℕ} (t : Told e s xs) where
  open e use {interest}

  -- what the watches hold is not part of it
  pub Told-data : (f d : ℕ → ℕ) → Told e (record s { watch_fn = f; poll_data = d }) xs
  Told-data f d = record {
    distinct = t.distinct;
    plain = t.plain;
    known = t.known;
    synced = t.synced;
    unknown = t.unknown;
  }

  module _ (p : ℕ) (q q' : Poll) (at : s.poll p ≡ some q) (fd : q'.fd ≡ q.fd)
      (flags : q'.flags ≡ q.flags) (g : Polls T) (u : Touched (set_poll s p q') xs p q' g) where
    -- a poll afterwards, and the same one before
    record Same (a : ℕ) (b : Poll) : Type 0 where
      old : Poll
      held : s.poll a ≡ some old
      same_fd : b.fd ≡ old.fd
      same_et : b.flags.et ≡ old.flags.et
      same_plain : IsPlain old → IsPlain b

    other : (a : ℕ) → p ≢ a → g.poll a ≡ s.poll a
    other a ne = u.others a ne ∙ ground arith

    before : (a : ℕ) (b : Poll) → g.poll a ≡ some b → Same a b
    before a b h = elim (Bool-cases (p == a)) [
      | inl here ↦
          let is : b ≡ u.node = ground (arith, u.here) in
          record {
            old = q;
            held = ground arith;
            same_fd = rw is (u.fd ∙ fd);
            same_et = rw is (u.et ∙ ap (λ f. f.et) flags);
            same_plain = λ x. rw is (u.plain (rw flags x));
          }
      | inr there ↦ record {
        old = b;
        held = ground (arith, other a);
        same_fd = refl;
        same_et = refl;
        same_plain = λ x. x;
      }
    ]

    later :
        (a : ℕ) (r : Poll) → s.poll a ≡ some r → (b : Poll) × (g.poll a ≡ some b) × (b.fd ≡ r.fd)
    later a r h = elim (Bool-cases (p == a)) [
      | inl here ↦
          let is : r ≡ q = ground arith in (u.node, ground (arith, u.here), rw is (u.fd ∙ fd))
      | inr there ↦ (r, ground (arith, other a), refl)
    ]

    pub Touched-Told : Told e g u.list
    Touched-Told = record {
      distinct = λ a b r1 r2 h1 h2 o eq.
          let x = before a r1 h1 in
          let y = before b r2 h2 in
          t.distinct a b x.old y.old x.held y.held (rw (← x.same_fd) o)
            (sym x.same_fd ∙ eq ∙ y.same_fd);
      plain = λ a b h. let x = before a b h in x.same_plain (t.plain a x.old x.held);
      known = λ a b h o.
          let x = before a b h in
          rw (u.calls, x.same_fd, x.same_et) (t.known a x.old x.held (rw (← x.same_fd) o));
      synced = λ a b h out o w. elim (Bool-cases (p == a)) [
        | inl here ↦ absurd (ground (arith, u.has_p))
        | inr there ↦
            let ne : p ≢ a = ground arith in
            let free : has a xs ≡ false = sym (u.has_other a ne) ∙ out in
            rw u.calls (t.synced a b (ground (arith, other a ne)) free o w)
      ];
      unknown = λ j o nobody. rw u.calls (
          t.unknown j o
            λ a r h same. let (b, at_b, fd_b) = later a r h in nobody a b at_b (fd_b ∙ same));
    }

module _ (e : Epoll) (k : KHash) {s : Polls k.Table} {xs : List ℕ} (inv : PollInv k s xs)
    (t : Told e s xs) where
  open e use {interest, interest-close, close-other}

  -- no poll of a descriptor that the table does not have
  nobody_of : (fd : ℤ) → k.find s.pollers fd ≡ none → is_open fd ≡ true → interest s.calls fd ≡ none
  nobody_of fd f o = t.unknown fd o λ a q h same.
      let found = (inv.each a q h).found (rw same o) in
      let clash : k.find s.pollers fd ≡ some a = rw (← same) found in cc

  module _ (fd : ℤ) (r : Polls k.Table × ℕ) (o : Obtained k s xs fd r) where
    same_polls : s.poll r.1 ≡ some o.node → (a : ℕ) → r.0.poll a ≡ s.poll a
    same_polls old a = elim (Bool-cases (r.1 == a)) [
      | inl here ↦ ground (arith, o.here)
      | inr there ↦ o.others a (ground arith)
    ]

    Obtained-old : s.poll r.1 ≡ some o.node → Told e r.0 xs
    Obtained-old old =
        let same = same_polls old in
        record {
          distinct = distinct k o.inv;
          plain = λ a q h. t.plain a q (sym (same a) ∙ h);
          known = λ a q h u. rw o.calls (t.known a q (sym (same a) ∙ h) u);
          synced = λ a q h out u w. rw o.calls (t.synced a q (sym (same a) ∙ h) out u w);
          unknown = λ j u nobody. rw o.calls (t.unknown j u λ a q h. nobody a q (same a ∙ h));
        }

    idle_node : k.find s.pollers fd ≡ none → any_bits (wanted o.node) ≡ false
    idle_node f =
        let rd : o.node.rd ≡ null = o.sides true ∙ ap (λ m. side true (poll_at s m)) f in
        let wr : o.node.wr ≡ null = o.sides false ∙ ap (λ m. side false (poll_at s m)) f in
        ground arith

    Obtained-new :
        s.poll r.1 ≡ none → k.find s.pollers fd ≡ none → o.node.flags ≡ no_bits → Told e r.0 xs
    Obtained-new unused f flags =
        let older : (a : ℕ) (q : Poll)
            → (r.1 == a) ≡ false
            → r.0.poll a ≡ some q
            → s.poll a ≡ some q =
          λ a q ne h. sym (o.others a (ground arith)) ∙ h in
        let is_node : (a : ℕ) (q : Poll) → (r.1 == a) ≡ true → r.0.poll a ≡ some q → q ≡ o.node =
          λ a q eq h. ground (arith, o.here) in
        record {
          distinct = distinct k o.inv;
          plain = λ a q h. elim (Bool-cases (r.1 == a)) [
            | inl here ↦ rw (is_node a q here h, flags) (refl, refl, refl)
            | inr there ↦ t.plain a q (older a q there h)
          ];
          known = λ a q h u. elim (Bool-cases (r.1 == a)) [
            | inl here ↦
                rw (is_node a q here h, o.fd_eq, flags, o.calls, nobody_of fd f o.open_fd) refl
            | inr there ↦ rw o.calls (t.known a q (older a q there h) u)
          ];
          synced = λ a q h out u w. elim (Bool-cases (r.1 == a)) [
            | inl here ↦
                let idle = idle_node f in
                let same = ap (λ x. any_bits (wanted x)) (is_node a q here h) in cc
            | inr there ↦ rw o.calls (t.synced a q (older a q there h) out u w)
          ];
          unknown = λ j u nobody. rw o.calls (
              t.unknown j u λ a q h. elim (Bool-cases (r.1 == a)) [
                | inl here ↦ absurd (ground (arith, unused))
                | inr there ↦ nobody a q (o.others a (ground arith) ∙ h)
              ]);
        }

    pub Obtained-Told : Told e r.0 xs
    Obtained-Told = elim o.origin [
      | inl (old, f) ↦ Obtained-old old
      | inr (unused, f, flags) ↦ Obtained-new unused f flags
    ]
