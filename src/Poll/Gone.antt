-- ===== src/Poll/Gone.antt =====
-- evloop.epoll.c: ev_close keeps what the kernel knows: both sides forget the descriptor.
use cthread.Base.{
  ℕ, true, false, List, none, some, ◌≡◌, ◌≢◌, ◌==◌, inl, inr, arith, Bool-cases, sym, ◌∙◌,
}
use cthread.Word.{ℤ, eq_int, eq_int-eq}
use cthread.Poll.{Poll, Polls, KHash, is_open, called, close}
use cthread.Poll.Inv.{PollInv, distinct}
use cthread.Poll.Dirty.{Touched}
use cthread.Poll.Close.{closed, forgotten}
use cthread.Poll.Kernel.{Epoll, Told}

module _ (e : Epoll) (k : KHash) {s : Polls k.Table} {xs : List ℕ} (inv : PollInv k s xs)
    (t : Told e s xs) (fd : ℤ) where
  open e use {interest, interest-close, close-other}

  nobody_closes :
      k.find s.pollers fd ≡ none
      → (a : ℕ) (q : Poll) → s.poll a ≡ some q
      → is_open q.fd ≡ true
      → eq_int fd q.fd ≡ false
  nobody_closes f a q h o = elim (Bool-cases (eq_int fd q.fd)) [
    | inl same ↦
        let found = (inv.each a q h).found o in
        let is = eq_int-eq fd q.fd same in
        let clash : k.find s.pollers fd ≡ some a = rw is found in cc
    | inr other ↦ other
  ]

  -- a descriptor that the table does not have
  pub called-Told : k.find s.pollers fd ≡ none → Told e (called s (close fd)) xs
  called-Told f = record {
    distinct = t.distinct;
    plain = t.plain;
    known = λ a q h o. rw (close-other s.calls fd q.fd (nobody_closes f a q h o)) (t.known a q h o);
    synced = λ a q h out o w.
        rw (close-other s.calls fd q.fd (nobody_closes f a q h o)) (t.synced a q h out o w);
    unknown = λ j o nobody. elim (Bool-cases (eq_int fd j)) [
      | inl same ↦ rw (← eq_int-eq fd j same) (interest-close s.calls fd)
      | inr other ↦ rw (close-other s.calls fd j other) (t.unknown j o nobody)
    ];
  }

  module _ (p : ℕ) (q : Poll) (f : k.find s.pollers fd ≡ some p) (at : s.poll p ≡ some q)
      (of_fd : q.fd ≡ fd) (open_fd : is_open fd ≡ true) (h : Polls k.Table)
      (u : Touched
        (forgotten k inv fd p q f at of_fd open_fd)
        xs
        p
        (closed k inv fd p q f at of_fd open_fd)
        h) where
    other : (a : ℕ) → p ≢ a → h.poll a ≡ s.poll a
    other a ne = u.others a ne ∙ ground arith

    -- an open poll afterwards is another one
    apart :
        (a : ℕ) (b : Poll)
        → h.poll a ≡ some b
        → is_open b.fd ≡ true
        → (p ≢ a) × (s.poll a ≡ some b) × (eq_int fd b.fd ≡ false)
    apart a b x o = elim (Bool-cases (p == a)) [
      | inl here ↦ absurd (ground (arith, u.here, u.fd))
      | inr there ↦
          let ne : p ≢ a = ground arith in
          let held : s.poll a ≡ some b = sym (other a ne) ∙ x in
          elim (Bool-cases (eq_int fd b.fd)) [
            | inl same ↦
                let is : b.fd ≡ q.fd = sym (eq_int-eq fd b.fd same) ∙ sym of_fd in
                absurd (ne (sym (t.distinct a p b q held at o is)))
            | inr differs ↦ (ne, held, differs)
          ]
    ]

    pub forgotten-Told :
        PollInv k (called h (close fd)) u.list → Told e (called h (close fd)) u.list
    forgotten-Told inv_g = record {
      distinct = distinct k inv_g;
      plain = λ a b x. elim (Bool-cases (p == a)) [
        | inl here ↦
            let is : b ≡ u.node = ground (arith, u.here) in rw is (u.plain (t.plain p q at))
        | inr there ↦ t.plain a b (ground (arith, other a))
      ];
      known = λ a b x o.
          let (ne, held, differs) = apart a b x o in
          rw (close-other h.calls fd b.fd differs, u.calls) (t.known a b held o);
      synced = λ a b x out o w.
          let (ne, held, differs) = apart a b x o in
          rw (close-other h.calls fd b.fd differs, u.calls)
            (t.synced a b held (sym (u.has_other a ne) ∙ out) o w);
      unknown = λ j o nobody. elim (Bool-cases (eq_int fd j)) [
        | inl same ↦ rw (← eq_int-eq fd j same) (interest-close h.calls fd)
        | inr differs ↦
            rw (close-other h.calls fd j differs, u.calls)
              (t.unknown j o λ a b x same. elim (Bool-cases (p == a)) [
                | inl here ↦ absurd (ground (arith, at, of_fd))
                | inr there ↦ nobody a b (other a (ground arith) ∙ x) same
              ])
      ];
    }
