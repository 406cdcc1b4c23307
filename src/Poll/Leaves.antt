-- ===== src/Poll/Leaves.antt =====
-- evloop.epoll.c: ev_unwatch changes the map of the watches as `after` says.
use cthread.Base.{
  ℕ, Bool, true, false, List, some, ◌≡◌, ◌≢◌, ◌==◌, ◌⊎◌, inl, inr, refl, update, arith, Bool-cases,
  sym, ap, ◌∙◌,
}
use cthread.Word.{ℤ, eq_int, eq_int-eq, eq_int_refl}
use cthread.Run.{ok, Returns, returns, Returns-map}
use cthread.Poll.{null, Poll, Polls, KHash, is_open, set_poll, ev_unwatch}
use cthread.Poll.Inv.{PollInv, side, held_poll}
use cthread.Poll.Dirty.{Touched}
use cthread.Poll.Kernel.{Epoll}
use cthread.Poll.Known.{Told-data, Touched-Told}
use cthread.Poll.Unwatch.{idle, cleared, cleared-lem, ev_unwatch-Touched}
use cthread.Poll.View.{Watches, open_poll, registered-touched}
use cthread.Poll.Watch.{registered}
use cthread.Poll.Op.{unwatches, after, Allowed, Follows}

module _ (e : Epoll) (k : KHash) {s : Polls k.Table} {xs : List ℕ} {v : Watches}
    (h : Follows k e s xs v) where
  -- two maps that agree
  Follows-agree : (v' : Watches) → ((j : ℤ) (c : Bool) → v' j c ≡ v j c) → Follows k e s xs v'
  Follows-agree v' same = record {
    inv = h.inv;
    told = h.told;
    view = λ j c. h.view j c ∙ sym (same j c);
    linked = λ j c nz. rw (same j c) (h.linked j c (λ z. nz (same j c ∙ z)));
    armed = λ j c nz. rw (same j c) (h.armed j c (λ z. nz (same j c ∙ z)));
    once =
        λ i j b c eq nz. h.once i j b c (sym (same i b) ∙ eq ∙ same j c) (λ z. nz (same i b ∙ z));
  }

  -- a watch without a poll waits for nothing
  idle_watch : (w : ℕ) → s.poll_data w ≡ null → (j : ℤ) (c : Bool) → v j c ≡ w → w ≡ null
  idle_watch w none_here j c at = elim (Bool-cases (w == null)) [
    | inl z ↦ ground arith
    | inr nz ↦
        let found = h.linked j c (ground arith) in
        let at_null : k.find s.pollers j ≡ some null = ground (arith, found) in
        let (q, held, is) = held_poll j (s.poll null) (h.inv.table j null at_null) in
        absurd (ground (arith, h.inv.null_free, held))
  ]

  module _ (w p : ℕ) (q : Poll) (held : s.poll p ≡ some q) (o : is_open q.fd ≡ true)
      (mine : (q.rd ≡ w) ⊎ (q.wr ≡ w)) (nz : w ≢ null) (g : Polls k.Table)
      (t : Touched
        (set_poll (idle k h.inv w p q held o) p (cleared k h.inv w p q held o))
        xs
        p
        (cleared k h.inv w p q held o)
        g)
      (inv_g : PollInv k g t.list) where
    abbrev left : Watches
    left = after (unwatches w) v

    others : (a : ℕ) → p ≢ a → g.poll a ≡ s.poll a
    others a ne = t.others a ne ∙ ground arith

    sides : (c : Bool) → v q.fd c ≡ side c (some q)
    sides c = let f = (h.inv.each p q held).found o in sym (h.view q.fd c) ∙ rw (f, held) refl

    once_here : q.rd ≡ q.wr → q.rd ≢ null → true ≡ false
    once_here eq n =
        (h.once q.fd q.fd true false (sides true ∙ eq ∙ sym (sides false))
          (λ z. n (sym (sides true) ∙ z))).1

    node_side : (c : Bool) → side c (some t.node) ≡ left q.fd c
    node_side c =
        let (flags, next, fd, rd, wr) = cleared-lem k h.inv w p q held o in
        rw (sides c) (ground (arith, t.rd, t.wr, rd, wr, once_here))

    elsewhere : (j : ℤ) (c : Bool) → eq_int q.fd j ≡ false → v j c ≢ w
    elsewhere j c miss same =
        let at : (b : Bool) → side b (some q) ≡ w → eq_int q.fd j ≡ true = λ b m.
          let (j_q, eq) = h.once j q.fd c b (same ∙ sym (sides b ∙ m)) (λ z. nz (sym same ∙ z)) in
          rw j_q (eq_int_refl q.fd) in
        elim mine [ inl m ↦ let hit = at true m in cc | inr m ↦ let hit = at false m in cc ]

    view_left : (j : ℤ) (c : Bool) → registered k g j c ≡ left j c
    view_left j c =
        let touched = registered-touched k h.inv g p q t.node held o t.pollers t.here others j c in
        elim (Bool-cases (eq_int q.fd j)) [
          | inl hit ↦ touched ∙ rw hit (node_side c ∙ ap (λ i. left i c) (eq_int-eq q.fd j hit))
          | inr miss ↦ let ne = elsewhere j c miss in touched ∙ rw miss (h.view j c ∙ ground arith)
        ]

    cleared-Follows : Follows k e g t.list left
    cleared-Follows = record {
      inv = inv_g;
      told =
          Touched-Told e (Told-data e h.told (update s.watch_fn w null) (update s.poll_data w null))
            p q (cleared k h.inv w p q held o) held (ground arith) (ground arith) g t;
      view = view_left;
      linked = λ j c n. rw (t.pollers, t.poll_data) (ground (arith, h.linked j c));
      armed = λ j c n. rw t.watch_fn (ground (arith, h.armed j c));
      once = λ i j b c eq n. h.once i j b c (ground arith) (ground arith);
    }

  ev_unwatch-idle : (w : ℕ) → s.poll_data w ≡ null → ev_unwatch w s ≡ ok s
  unfolding ev_unwatch
  ev_unwatch-idle w at = rw at refl

  either_side : (q : Poll) (w : ℕ) (c : Bool) → side c (some q) ≡ w → (q.rd ≡ w) ⊎ (q.wr ≡ w)
  either_side q w true here = inl here
  either_side q w false here = inr here

  -- the poll of a watch that waits
  waiting :
      (w : ℕ) (j : ℤ) (c : Bool)
      → v j c ≡ w
      → w ≢ null
      → (q : Poll) × (s.poll (s.poll_data w) ≡ some q)
        × (is_open q.fd ≡ true)
        × ((q.rd ≡ w) ⊎ (q.wr ≡ w))
  waiting w j c at nz =
      let f = h.linked j c λ z. nz (sym at ∙ z) in
      let found : k.find s.pollers j ≡ some (s.poll_data w) = rw at at f in
      let (q, held, o) =
        open_poll j (s.poll (s.poll_data w)) (h.inv.table j (s.poll_data w) found) in
      let here : side c (some q) ≡ v j c = rw (found, held) at (h.view j c) in
      (q, held, o, either_side q w c (here ∙ at))

  pub ev_unwatch-Follows :
      (w : ℕ)
      → Allowed k (unwatches w) s xs v
      → Returns (λ g. (list : List ℕ) × Follows k e g list (after (unwatches w) v)) (ev_unwatch w s)
  ev_unwatch-Follows w (inl none_here) = rw (ev_unwatch-idle w none_here) (
      returns (
        xs,
        Follows-agree (after (unwatches w) v) λ j c. ground (arith, idle_watch w none_here j c),
      ))
  ev_unwatch-Follows w (inr (j, c, at, nz)) =
      let (q, held, o, mine) = waiting w j c at nz in
      Returns-map (ev_unwatch-Touched k h.inv w (s.poll_data w) q held o refl mine)
        λ g (t, inv_g). (t.list, cleared-Follows w (s.poll_data w) q held o mine nz g t inv_g)
