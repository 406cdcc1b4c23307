-- ===== src/Poll/Refine.antt =====
-- evloop.epoll.c: each operation on the polls changes the map of the watches as `after` says.
use cthread.Base.{
  length, ℕ, ◌<◌, true, List, [], ◌∷◌, Option, none, some, ◌≡◌, ◌≢◌, inl, inr, refl, if◌then◌else◌,
  update, arith, Bool-cases, ap, ◌∙◌,
}
use cthread.Word.{ℤ, eq_int, eq_int-eq}
use cthread.Run.{Returns, returns, Returns-map, Returns-at}
use cthread.Poll.{Poll, Polls, KHash, is_open, called, close, ev_close, flush}
use cthread.Poll.Inv.{PollInv, PollInv-data, held_poll}
use cthread.Poll.Kernel.{Epoll, Told}
use cthread.Poll.Known.{Told-data}
use cthread.Poll.Gone.{called-Told, forgotten-Told}
use cthread.Poll.Close.{finds-forgotten, ev_close-called, ev_close-Touched}
use cthread.Poll.Flush.{flush_lem}
use cthread.Poll.Sync.{flush-Told}
use cthread.Poll.View.{Watches, drop_fd, open_poll, registered-forgot, registered-Flushed}
use cthread.Poll.Op.{
  Op, sets_fn, watches, unwatches, closes, flushes, perform, after, Allowed, Follows,
}
use cthread.Poll.Follows.{ev_watch-Follows}
use cthread.Poll.Leaves.{ev_unwatch-Follows}

module _ (e : Epoll) (k : KHash) {s : Polls k.Table} {xs : List ℕ} {v : Watches}
    (h : Follows k e s xs v) where
  module _ (fd : ℤ) (g : Polls k.Table) (list : List ℕ) (inv_g : PollInv k g list)
      (told_g : Told e g list)
      (finds : (j : ℤ) → k.find g.pollers j ≡ (if eq_int fd j then none else k.find s.pollers j))
      (others : (a : ℕ) → k.find s.pollers fd ≢ some a → g.poll a ≡ s.poll a)
      (links : g.poll_data ≡ s.poll_data) (fns : g.watch_fn ≡ s.watch_fn) where
    closed-Follows : Follows k e g list (drop_fd v fd)
    closed-Follows = record {
      inv = inv_g;
      told = told_g;
      view = λ j c. registered-forgot k h.inv g fd finds others j c ∙ rw (h.view j c) refl;
      linked = λ j c nz. rw (finds j, links) (ground (arith, h.linked j c));
      armed = λ j c nz. rw fns (ground (arith, h.armed j c));
      once = λ i j b c eq nz. h.once i j b c (ground arith) (ground arith);
    }

  close_none :
      (fd : ℤ) → k.find s.pollers fd ≡ none → Follows k e (called s (close fd)) xs (drop_fd v fd)
  close_none fd f =
      closed-Follows fd (called s (close fd)) xs
        (PollInv-data k h.inv s.watch_fn s.poll_data (close fd ∷ s.calls))
        (called-Told e k h.inv h.told fd f)
        (λ j. elim (Bool-cases (eq_int fd j)) [
          | inl same ↦ rw (same, ← eq_int-eq fd j same) f
          | inr other ↦ rw other refl
        ])
        (λ a ne. refl) refl refl

  module _ (fd : ℤ) (p : ℕ) (q : Poll) (f : k.find s.pollers fd ≡ some p) (at : s.poll p ≡ some q)
      (of_fd : q.fd ≡ fd) (o : is_open fd ≡ true) where
    close_some :
        Returns (λ g. (list : List ℕ) × Follows k e g list (drop_fd v fd)) (ev_close k fd s)
    close_some = Returns-map (ev_close-Touched k h.inv fd p q f at of_fd o) λ g (c, t, is, inv_g).
        let told : Told e g t.list =
          rw is (forgotten-Told e k h.inv h.told fd p q f at of_fd o c t (rw is at inv_g)) in
        (
          t.list,
          closed-Follows fd g t.list inv_g told
              (λ j. rw (is, t.pollers) (finds-forgotten k h.inv fd p q f at of_fd o j))
              (λ a ne. rw is (t.others a (λ same. ne (f ∙ ap some same)) ∙ ground arith))
              (rw is t.poll_data) (rw is t.watch_fn),
        )

  pub ev_close-Follows :
      (fd : ℤ) (m : Option ℕ)
      → k.find s.pollers fd ≡ m
      → Returns (λ g. (list : List ℕ) × Follows k e g list (drop_fd v fd)) (ev_close k fd s)
  ev_close-Follows fd none f = rw (ev_close-called k h.inv fd f) (returns (xs, close_none fd f))
  ev_close-Follows fd (some p) f =
      let (q, held, is) = held_poll fd (s.poll p) (h.inv.table fd p f) in
      let (r, held_r, o) = open_poll fd (s.poll p) (h.inv.table fd p f) in
      let same : q ≡ r = ground (arith, held) in
      let open_fd : is_open fd ≡ true = rw (← is, same) o in close_some fd p q f held is open_fd

  -- the loop of evloop_step tells the kernel all
  pub flush-Follows :
      (fuel : ℕ) → length xs < fuel → Returns (λ g. Follows k e g [] v) (flush fuel s)
  flush-Follows fuel enough =
      let r = flush_lem k h.inv fuel enough in
      let told = Returns-at (flush-Told e fuel s xs enough h.inv.chain h.told) r.ends in
      let (inv_g, f) = r.holds in
      record {
        value = r.value;
        ends = r.ends;
        holds = record {
          inv = inv_g;
          told = told;
          view = λ j c. registered-Flushed k h.inv r.value f j c ∙ h.view j c;
          linked = λ j c nz. rw (f.pollers, f.poll_data) (h.linked j c nz);
          armed = λ j c nz. rw f.watch_fn (h.armed j c nz);
          once = h.once;
        };
      }

  -- Where an operation is allowed, it returns, and changes the map of the watches as `after` says; the
  -- polls stay well formed, and the kernel knows those that have a watch and are not dirty.
  pub perform-Follows :
      (op : Op)
      → Allowed k op s xs v
      → Returns (λ g. (list : List ℕ) × Follows k e g list (after op v)) (perform k op s)
  perform-Follows (sets_fn w f) nz = returns (
    xs,
    record {
      inv = PollInv-data k h.inv (update s.watch_fn w f) s.poll_data s.calls;
      told = Told-data e h.told (update s.watch_fn w f) s.poll_data;
      view = h.view;
      linked = h.linked;
      armed = λ j c n. ground (arith, h.armed j c n);
      once = h.once;
    },
  )
  perform-Follows (watches fresh w fd read) ok_args = ev_watch-Follows e k h fresh w fd read ok_args
  perform-Follows (unwatches w) ok_args = ev_unwatch-Follows e k h w ok_args
  perform-Follows (closes fd) ok_args = ev_close-Follows fd (k.find s.pollers fd) refl
  perform-Follows (flushes fuel) enough = Returns-map (flush-Follows fuel enough) λ g f. ([], f)
