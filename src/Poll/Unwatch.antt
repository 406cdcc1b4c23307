-- ===== src/Poll/Unwatch.antt =====
-- evloop.epoll.c: ev_unwatch.
use cthread.Base.{
  has, ℕ, true, false, ◌||◌, List, some, ◌≡◌, ◌≢◌, ◌==◌, if◌then◌else◌, update, arith, ◌∙◌, ◌⊎◌,
}
use cthread.Run.{Returns, Returns-map}
use cthread.Poll.{null, Poll, Polls, KHash, is_open, load_poll, set_poll, ev_unwatch}
use cthread.Poll.Dirty.{Touched}
use cthread.Poll.Inv.{PollInv, PollInv-data}
use cthread.Poll.Touch.{touch, touch-PollInv, p-ne-null}

-- what ev_unwatch leaves
pub record Unwatched (k : KHash) (s : Polls k.Table) (w p : ℕ) (q : Poll) (g : Polls k.Table)
    : Type 0 where
  pub list : List ℕ
  pub inv : PollInv k g list
  pub listed : has p list ≡ true
  pub node : Poll
  pub here : g.poll p ≡ some node
  pub rd : node.rd ≡ (if q.rd == w then null else q.rd)
  pub wr : node.wr ≡ (if q.rd == w then q.wr else null)
  pub fd : node.fd ≡ q.fd
  pub others : (a : ℕ) → p ≢ a → g.poll a ≡ s.poll a
  pub poll_data : g.poll_data ≡ update s.poll_data w null
  pub watch_fn : g.watch_fn ≡ update s.watch_fn w null

module _ (k : KHash) {s : Polls k.Table} {xs : List ℕ} (inv : PollInv k s xs) where
  module _ (w p : ℕ) (q : Poll) (e : s.poll p ≡ some q) (o : is_open q.fd ≡ true) where
    abbrev pub idle : Polls k.Table
    idle = record s { poll_data = update s.poll_data w null; watch_fn = update s.watch_fn w null }

    idle-PollInv : PollInv k idle xs
    idle-PollInv = PollInv-data k inv (update s.watch_fn w null) (update s.poll_data w null) s.calls

    abbrev pub cleared : Poll
    cleared = if q.rd == w then record q { rd = null } else record q { wr = null }

    pub cleared-lem :
        (cleared.flags ≡ q.flags)
        × (cleared.next ≡ q.next)
        × (cleared.fd ≡ q.fd)
        × (cleared.rd ≡ (if q.rd == w then null else q.rd))
        × (cleared.wr ≡ (if q.rd == w then q.wr else null))
    cleared-lem = ground arith

    pub ev_unwatch-Touched :
        s.poll_data w ≡ p
        → (q.rd ≡ w) ⊎ (q.wr ≡ w)
        → Returns
            (λ g. (t : Touched (set_poll idle p cleared) xs p cleared g) × PollInv k g t.list)
            (ev_unwatch w s)
    unfolding ev_unwatch
    ev_unwatch-Touched at mine =
        let nz = p-ne-null k s xs inv p q e in
        let some_poll : (p == null) ≡ false = ground arith in
        let test : (q.rd == w || q.wr == w) ≡ true = ground arith in
        let (flags, next, fd, rd, wr) = cleared-lem in
        rw (at, some_poll, load_poll, e, test)
          (Returns-map (touch k idle xs idle-PollInv p q e cleared flags next)
            λ g t. (t, touch-PollInv k idle xs idle-PollInv p q e cleared g fd o t))

    -- On a well-formed state, for a watch on one side of the open poll that it points at, ev_unwatch
    -- returns without a fault. The state is well formed, the watch has no function and no poll, its
    -- side of the poll is NULL and the other as before, the poll is on the dirty list, and all
    -- other polls are as before.
    pub ev_unwatch_lem :
        s.poll_data w ≡ p → (q.rd ≡ w) ⊎ (q.wr ≡ w) → Returns (Unwatched k s w p q) (ev_unwatch w s)
    ev_unwatch_lem at mine =
        let (flags, next, fd, rd, wr) = cleared-lem in
        Returns-map (ev_unwatch-Touched at mine) λ g (t, inv_g). record {
          list = t.list;
          inv = inv_g;
          listed = t.has_p;
          node = t.node;
          here = t.here;
          rd = t.rd ∙ rd;
          wr = t.wr ∙ wr;
          fd = t.fd ∙ fd;
          others = λ a ne. t.others a ne ∙ ground arith;
          poll_data = t.poll_data;
          watch_fn = t.watch_fn;
        }
