-- ===== src/Poll/Follows.antt =====
-- evloop.epoll.c: ev_watch changes the map of the watches as `after` says.
use cthread.Base.{
  ℕ, Bool, true, false, not, List, some, ◌≡◌, ◌≢◌, ◌==◌, inl, inr, refl, if◌then◌else◌, update,
  arith, Bool-cases, sym, ap, ◌∙◌,
}
use cthread.Word.{ℤ, eq_int, eq_int-eq}
use cthread.Run.{Returns, Returns-map, Returns-bind}
use cthread.Poll.{null, Poll, Polls, KHash, is_open, ev_watch}
use cthread.Poll.Inv.{PollInv, side}
use cthread.Poll.Dirty.{Touched}
use cthread.Poll.Kernel.{Epoll}
use cthread.Poll.Known.{Told-data, Touched-Told, Obtained-Told}
use cthread.Poll.Obtain.{Obtained, obtain-lem}
use cthread.Poll.Attach.{attach-Touched, filled, linked_to}
use cthread.Poll.View.{Watches, set_watch, is_side, registered-touched, registered-Obtained}
use cthread.Poll.Watch.{registered}
use cthread.Poll.Op.{watches, after, Once, Allowed, Follows}

module _ (e : Epoll) (k : KHash) {s : Polls k.Table} {xs : List ℕ} {v : Watches}
    (h : Follows k e s xs v) where
  set_watch-Once :
      (fd : ℤ) (read : Bool) (w : ℕ)
      → ((j : ℤ) (c : Bool) → v j c ≢ w)
      → Once (set_watch v fd read w)
  set_watch-Once fd read w free i j b c same nz = elim (Bool-cases (is_side fd read i b)) [
    | inl x ↦ elim (Bool-cases (is_side fd read j c)) [
      | inl y ↦
          let i_fd = eq_int-eq fd i (ground arith) in
          let j_fd = eq_int-eq fd j (ground arith) in (sym i_fd ∙ j_fd, ground arith)
      | inr y ↦ absurd (free j c (ground arith))
    ]
    | inr x ↦ elim (Bool-cases (is_side fd read j c)) [
      | inl y ↦ absurd (free i b (ground arith))
      | inr y ↦ h.once i j b c (ground arith) (ground arith)
    ]
  ]

  module _ (w : ℕ) (fd : ℤ) (read : Bool) (fn : s.watch_fn w ≢ null)
      (free : (j : ℤ) (c : Bool) → v j c ≢ w) (r : Polls k.Table × ℕ) (o : Obtained k s xs fd r)
      (u : is_open o.node.fd ≡ true) (g : Polls k.Table) where
    abbrev slot : Poll
    slot = filled k o.inv w r.1 o.node o.here u read

    abbrev before : Polls k.Table
    before = linked_to k o.inv w r.1 o.node o.here u

    module _
        (t : Touched (record before { poll = update before.poll r.1 (some slot) }) xs r.1 slot g)
        (inv_g : PollInv k g t.list) where
      slot_side :
          (c : Bool)
          → side c (some t.node) ≡ (if (if read then c else not c) then w else side c (some o.node))
      slot_side c = ground (arith, t.rd, t.wr)

      others : (a : ℕ) → r.1 ≢ a → g.poll a ≡ r.0.poll a
      others a ne = t.others a ne ∙ ground arith

      view_watch : (j : ℤ) (c : Bool) → registered k g j c ≡ set_watch v fd read w j c
      view_watch j c =
          let touched =
            registered-touched k o.inv g r.1 o.node t.node o.here u t.pollers t.here others j c in
          elim (Bool-cases (eq_int fd j)) [
            | inl hit ↦
                let old : side c (some o.node) ≡ v j c =
                  o.sides c ∙ rw (eq_int-eq fd j hit) (h.view j c) in
                let here : eq_int o.node.fd j ≡ true = rw o.fd_eq hit in
                touched ∙ rw (here, hit) (slot_side c ∙ rw old refl)
            | inr miss ↦
                let there : eq_int o.node.fd j ≡ false = rw o.fd_eq miss in
                touched ∙ rw (there, miss) (registered-Obtained k h.inv fd r o j c ∙ h.view j c)
          ]

      found_before : {p : ℕ} → k.find s.pollers fd ≡ some p → p ≡ r.1
      found_before f = elim o.origin [
        | inl (at, same) ↦ ground (arith, f, same)
        | inr (unused, none_before, flags) ↦ cc
      ]

      linked_watch :
          (j : ℤ) (c : Bool)
          → set_watch v fd read w j c ≢ null
          → k.find g.pollers j ≡ some (g.poll_data (set_watch v fd read w j c))
      linked_watch j c nz =
          rw (t.pollers, t.poll_data, o.poll_data, o.finds j)
            (elim (Bool-cases (is_side fd read j c)) [
              | inl x ↦ ground (arith, x)
              | inr x ↦
                  let old = h.linked j c (ground arith) in
                  let other : w ≢ v j c = λ same. free j c (sym same) in
                  elim (Bool-cases (eq_int fd j)) [
                    | inl hit ↦
                        let same =
                          found_before (ap (k.find s.pollers) (eq_int-eq fd j hit) ∙ old) in
                        ground (arith, same)
                    | inr miss ↦ ground (arith, old)
                  ]
            ])

      armed_watch :
          (j : ℤ) (c : Bool)
          → set_watch v fd read w j c ≢ null
          → g.watch_fn (set_watch v fd read w j c) ≢ null
      armed_watch j c nz =
          rw (t.watch_fn, o.watch_fn)
            (elim (Bool-cases (is_side fd read j c)) [
              | inl x ↦ rw x fn
              | inr x ↦ ground (arith, h.armed j c)
            ])

      pub attached-Follows : Follows k e g t.list (set_watch v fd read w)
      attached-Follows = record {
        inv = inv_g;
        told =
            Touched-Told e
              (Told-data e (Obtained-Told e k h.inv h.told fd r o) r.0.watch_fn before.poll_data)
              r.1 o.node slot o.here (ground arith) (ground arith) g t;
        view = view_watch;
        linked = linked_watch;
        armed = armed_watch;
        once = set_watch-Once fd read w free;
      }

  pub ev_watch-Follows :
      (fresh w : ℕ) (fd : ℤ) (read : Bool)
      → Allowed k (watches fresh w fd read) s xs v
      → Returns
          (λ g. (list : List ℕ) × Follows k e g list (after (watches fresh w fd read) v))
          (ev_watch k fresh w fd read s)
  unfolding ev_watch
  ev_watch-Follows fresh w fd read (fn, open_side, free, u, nz, unused) =
      let some_fn : (s.watch_fn w == null) ≡ false = ground arith in
      rw some_fn (
        Returns-bind (obtain-lem k h.inv fresh fd u nz unused (k.find s.pollers fd) refl) λ r o.
          let of_fd : is_open o.node.fd ≡ true = rw o.fd_eq u in
          let empty = o.sides read ∙ h.view fd read ∙ open_side in
          Returns-map (attach-Touched k o.inv w r.1 o.node o.here of_fd read empty)
            λ g (t, inv_g). (t.list, attached-Follows w fd read fn free r o of_fd g t inv_g))
