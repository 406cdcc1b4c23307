-- ===== src/Poll/Attach.antt =====
-- evloop.epoll.c: the end of ev_watch, which fills one side of a poll.
use cthread.Base.{
  has, ℕ, Bool, true, false, not, List, some, ◌≡◌, ◌==◌, refl, if◌then◌else◌, update, arith,
}
use cthread.Word.{ℤ}
use cthread.Run.{Returns, Returns-map}
use cthread.Poll.{null, Poll, Polls, KHash, is_open, load_poll, set_poll, attach}
use cthread.Poll.Dirty.{Touched}
use cthread.Poll.Inv.{side, PollInv, PollInv-data}
use cthread.Poll.Touch.{touch, touch-PollInv}

-- The watch `w` waits for its side of the descriptor `fd` in `g`; the other side is `other`.
pub record Watching (k : KHash) (g : Polls k.Table) (w : ℕ) (fd : ℤ) (read : Bool) (other : ℕ)
    : Type 0 where
  pub list : List ℕ
  pub inv : PollInv k g list
  pub at : ℕ
  pub found : k.find g.pollers fd ≡ some at
  pub linked : g.poll_data w ≡ at
  pub listed : has at list ≡ true
  pub node : Poll
  pub here : g.poll at ≡ some node
  pub slot : (if read then node.rd else node.wr) ≡ w
  pub rest : (if read then node.wr else node.rd) ≡ other

module _ (k : KHash) {s : Polls k.Table} {xs : List ℕ} (inv : PollInv k s xs) (w p : ℕ) (q : Poll)
    (e : s.poll p ≡ some q) (o : is_open q.fd ≡ true) where
  abbrev pub linked_to : Polls k.Table
  linked_to = record s { poll_data = update s.poll_data w p }

  pub linked_to-PollInv : PollInv k linked_to xs
  linked_to-PollInv = PollInv-data k inv s.watch_fn (update s.poll_data w p) s.calls

  abbrev pub filled : Bool → Poll
  filled read = if read then record q { rd = w } else record q { wr = w }

  pub attach-Touched :
      (read : Bool)
      → side read (some q) ≡ null
      → Returns
          (λ g.
            (t : Touched (set_poll linked_to p (filled read)) xs p (filled read) g) × PollInv k g
              t.list)
          (attach w p read s)
  unfolding attach
  attach-Touched true free =
      let test : (q.rd == null) ≡ true = ground arith in
      rw (load_poll, e, test)
        (Returns-map (touch k linked_to xs linked_to-PollInv p q e (filled true) refl refl)
          λ g t. (t, touch-PollInv k linked_to xs linked_to-PollInv p q e (filled true) g refl o t))
  attach-Touched false free =
      let test : (q.wr == null) ≡ true = ground arith in
      rw (load_poll, e, test)
        (Returns-map (touch k linked_to xs linked_to-PollInv p q e (filled false) refl refl) λ g t.
          (t, touch-PollInv k linked_to xs linked_to-PollInv p q e (filled false) g refl o t))

  -- the poll found, and the part of it that is free, filled
  pub attach-lem :
      (read : Bool)
      → side read (some q) ≡ null
      → Returns
          (λ g. Watching k g w q.fd read (side (not read) (some q)) × (g.watch_fn ≡ s.watch_fn))
          (attach w p read s)
  attach-lem read free = Returns-map (attach-Touched read free) λ g (t, inv_g). (
    record {
      list = t.list;
      inv = inv_g;
      at = p;
      found = rw t.pollers ((inv.each p q e).found o);
      linked = rw t.poll_data (ground arith);
      listed = t.has_p;
      node = t.node;
      here = t.here;
      slot = ground (arith, t.rd, t.wr);
      rest = ground (arith, t.rd, t.wr);
    },
    t.watch_fn,
  )
