-- ===== src/Poll/Close.antt =====
-- evloop.epoll.c: ev_close.
use cthread.Base.{
  ℕ, true, false, List, ◌∷◌, Option, none, some, ◌≡◌, ◌≢◌, ◌==◌, refl, if◌then◌else◌, arith,
  Bool-cases, inl, inr, sym, ap, subst, ◌∙◌,
}
use cthread.Word.{ℤ, negsuc, eq_int, eq_int-eq, eq_int_refl}
use cthread.Run.{ok, Returns, returns, Returns-bind, Returns-map}
use cthread.Poll.{
  Syscall, null, Poll, Polls, KHash, is_open, mark_dirty, load_poll, set_poll, ev_close, called,
  close,
}
use cthread.Poll.Dirty.{Touched, mark_dirty-Touched}
use cthread.Poll.Touch.{p-ne-null}
use cthread.Poll.Inv.{Chain-frame, PollInv, PollInv-data, IsPollOf, not-has}

-- what ev_close leaves
pub record Forgot (k : KHash) (s : Polls k.Table) (fd : ℤ) (g : Polls k.Table) : Type 0 where
  pub list : List ℕ
  pub inv : PollInv k g list
  pub finds : (j : ℤ) → k.find g.pollers j ≡ (if eq_int fd j then none else k.find s.pollers j)
  pub calls : g.calls ≡ close fd ∷ s.calls
  pub poll_data : g.poll_data ≡ s.poll_data
  pub watch_fn : g.watch_fn ≡ s.watch_fn

module _ (k : KHash) {s : Polls k.Table} {xs : List ℕ} (inv : PollInv k s xs) (fd : ℤ) where
  pub ev_close-called : k.find s.pollers fd ≡ none → ev_close k fd s ≡ ok (called s (close fd))
  unfolding ev_close
  ev_close-called f =
      let missing : (k.get s.pollers fd == k.end s.pollers) ≡ true =
        ground (arith, k.get-none s.pollers fd f) in
      rw missing refl

  ev_close-none : k.find s.pollers fd ≡ none → Returns (Forgot k s fd) (ev_close k fd s)
  ev_close-none f = rw (ev_close-called f) (
      returns (record {
        list = xs;
        inv = PollInv-data k inv s.watch_fn s.poll_data (close fd ∷ s.calls);
        finds = λ j. elim (Bool-cases (eq_int fd j)) [
          | inl same ↦ rw (same, ← eq_int-eq fd j same) f
          | inr other ↦ rw other
        ];
        calls = refl;
        poll_data = refl;
        watch_fn = refl;
      }))

  module _ (p : ℕ) (q : Poll) (f : k.find s.pollers fd ≡ some p) (e : s.poll p ≡ some q)
      (of_fd : q.fd ≡ fd) (o : is_open fd ≡ true) where
    abbrev pub closed : Poll
    closed = record q { fd = negsuc 0; rd = null; wr = null }

    abbrev pub forgotten : Polls k.Table
    forgotten = record (set_poll s p closed) { pollers = k.del s.pollers (k.get s.pollers fd) }

    forgotten-Touched : Returns (Touched forgotten xs p closed) (mark_dirty p forgotten)
    forgotten-Touched =
        mark_dirty-Touched forgotten xs p closed (Chain-frame inv.chain λ a i. ground arith)
          (ground arith) (p-ne-null k s xs inv p q e) (λ d. (inv.each p q e).listed d)
          (λ d. not-has k inv p q e d)

    pub finds-forgotten :
        (j : ℤ) → k.find forgotten.pollers j ≡ (if eq_int fd j then none else k.find s.pollers j)
    finds-forgotten j = k.find-del s.pollers fd j p f

    Touched-PollInv :
        (g : Polls k.Table) (t : Touched forgotten xs p closed g) (c : List Syscall)
        → PollInv k (record g { calls = c }) t.list
    Touched-PollInv g t c = record {
      chain = t.chain;
      null_free = ground (arith, t.others null, inv.null_free, p-ne-null k s xs inv p q e);
      each = λ a r h. elim (Bool-cases (p == a)) [
        | inl same ↦
            let is : r ≡ t.node = ground (arith, t.here) in
            record {
              listed = λ d. ground (arith, t.has_p);
              found = λ u. ground (arith, t.fd);
              closed = λ u. ground (arith, t.dirty, t.rd, t.wr);
            }
        | inr other ↦
            let ne : p ≢ a = ground arith in
            let before : s.poll a ≡ some r = ground (arith, t.others a ne) in
            let ok_a = inv.each a r before in
            record {
              listed = λ d. t.has_other a ne ∙ ok_a.listed d;
              found = λ u.
                  let old = ok_a.found u in
                  rw t.pollers (ground (arith, finds-forgotten r.fd, eq_int-eq fd r.fd, old, f));
              closed = ok_a.closed;
            }
      ];
      table = λ j a h.
          let after : k.find forgotten.pollers j ≡ some a = rw t.pollers at h in
          elim (Bool-cases (eq_int fd j)) [
            | inl hit ↦ ground (arith, finds-forgotten j)
            | inr miss ↦
                let old : k.find s.pollers j ≡ some a = ground (arith, finds-forgotten j) in
                let held = inv.table j a old in
                elim (Bool-cases (p == a)) [
                  | inl same ↦
                      let p_a : a ≡ p = ground arith in
                      let at : IsPollOf j (some q) = subst (IsPollOf j) (ap s.poll p_a ∙ e) held in
                      let j_fd : j ≡ fd = sym at.0 ∙ of_fd in
                      let hit : eq_int fd j ≡ true = rw j_fd (eq_int_refl fd) in cc
                  | inr other ↦
                      let ne : p ≢ a = ground arith in
                      let same : g.poll a ≡ s.poll a = t.others a ne ∙ ground arith in
                      subst (IsPollOf j) (sym same) held
                ]
          ];
    }

    pub ev_close-Touched :
        Returns
          (λ g.
            (h : Polls k.Table) × (t : Touched forgotten xs p closed h) × (g ≡ called h (close fd))
            × PollInv k g t.list)
          (ev_close k fd s)
    unfolding ev_close
    ev_close-Touched =
        let (ne, at) = k.get-some s.pollers fd p f in
        let there : (k.get s.pollers fd == k.end s.pollers) ≡ false = ground arith in
        rw (there, at, load_poll, e)
          (Returns-bind forgotten-Touched
            λ g t. returns (g, t, refl, Touched-PollInv g t (close fd ∷ g.calls)))

    ev_close-some : Returns (Forgot k s fd) (ev_close k fd s)
    ev_close-some = Returns-map ev_close-Touched λ g (h, t, is, inv_g). record {
      list = t.list;
      inv = inv_g;
      finds = λ j. rw (is, t.pollers) (finds-forgotten j);
      calls = rw is (ap (◌∷◌ (close fd)) t.calls);
      poll_data = rw is t.poll_data;
      watch_fn = rw is t.watch_fn;
    }

  by_poll :
      (p : ℕ) (o : Option Poll)
      → k.find s.pollers fd ≡ some p
      → s.poll p ≡ o
      → IsPollOf fd o
      → Returns (Forgot k s fd) (ev_close k fd s)
  by_poll p none f e h = absurd h
  by_poll p (some q) f e h = ev_close-some p q f e h.0 h.1

  by_find : (f : Option ℕ) → k.find s.pollers fd ≡ f → Returns (Forgot k s fd) (ev_close k fd s)
  by_find none f = ev_close-none f
  by_find (some p) f = by_poll p (s.poll p) f refl (inv.table fd p f)

  -- On a well-formed state ev_close returns without a fault, for any descriptor. The state is well
  -- formed, the table has no poll for the descriptor and is as before for all others, the kernel is
  -- called once, to close the descriptor, and the watches are as before.
  pub ev_close_lem : Returns (Forgot k s fd) (ev_close k fd s)
  ev_close_lem = by_find (k.find s.pollers fd) refl
