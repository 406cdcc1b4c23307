-- ===== src/Poll/Calls.antt =====
-- evloop.epoll.c: the functions that the events of the kernel call.
use cthread.Base.{
  ℕ, Bool, true, false, not, ◌&&◌, ◌||◌, [], Option, none, some, ◌≡◌, ◌≢◌, ◌==◌, refl, arith, sym,
  ap, ◌∙◌,
}
use cthread.Word.{ℤ}
use cthread.Run.{ok}
use cthread.Timers.{Loop, Callback, invoke}
use cthread.Poll.{null, no_bits, Bits, Poll, Polls, KHash}
use cthread.Poll.Inv.{Chain, side}
use cthread.Poll.Kernel.{Epoll}
use cthread.Poll.Step.{evloop_init, wake, dispatch}
use cthread.Poll.Dispatch.{Keeps, load_poll-ok}
use cthread.Poll.View.{Watches}
use cthread.Poll.Op.{Follows}
use cthread.Poll.Reach.{Reached, Reached-dirty, awaited, Follows-Heard}

abbrev first : Option (Bits × ℕ) → Bits
first none = no_bits
first (some (b, p)) = b

abbrev second : Option (Bits × ℕ) → ℕ
second none = null
second (some (b, p)) = p

-- events for one side of a descriptor alone
abbrev pub IsFor : Bool → Bits → Type 0
IsFor read b = ((b.rd || b.hup) ≡ read) × (b.wr ≡ not read)

module _ {T : Type 0} (call : Callback (Polls T)) where
  wakes :
      (e : Loop (Polls T)) (w : ℕ)
      → e.rest.watch_fn w ≢ null
      → wake call w e ≡ call (e.rest.watch_fn w) w e
  unfolding wake invoke
  wakes e w fn = let test : (e.rest.watch_fn w == null) ≡ false = ground arith in rw test refl

  module _ (e g : Loop (Polls T)) (p : ℕ) (q r : Poll) (b : Bits) (at : e.rest.poll p ≡ some q)
      (after : g.rest.poll p ≡ some r) where
    dispatch-read :
        q.rd ≢ null
        → IsFor true b
        → wake call q.rd e ≡ ok g
        → dispatch call (record { ptr = p; events = b }) e ≡ ok g
    unfolding dispatch
    dispatch-read nz (on, off) ends =
        let test : (q.rd == null) ≡ false = ground arith in
        rw (load_poll-ok e.rest p q at, test, on, ends, load_poll-ok g.rest p r after, off)
          (ground arith)

    dispatch-write :
        q.wr ≢ null
        → IsFor false b
        → wake call q.wr e ≡ ok g
        → dispatch call (record { ptr = p; events = b }) e ≡ ok g
    unfolding dispatch
    dispatch-write nz (off, on) ends =
        let test : (q.wr == null) ≡ false = ground arith in
        let skip : (not (q.rd == null) && (b.rd || b.hup)) ≡ false = ground arith in
        rw (load_poll-ok e.rest p q at, skip, load_poll-ok e.rest p q at, test, on) ends

    by_side :
        (read : Bool) (w : ℕ)
        → side read (some q) ≡ w
        → w ≢ null
        → IsFor read b
        → e.rest.watch_fn w ≢ null
        → call (e.rest.watch_fn w) w e ≡ ok g
        → dispatch call (record { ptr = p; events = b }) e ≡ ok g
    by_side true w is nz for_side fn ends =
        dispatch-read (λ z. nz (sym is ∙ z)) for_side (rw is (wakes e w fn ∙ ends))
    by_side false w is nz for_side fn ends =
        dispatch-write (λ z. nz (sym is ∙ z)) for_side (rw is (wakes e w fn ∙ ends))

module _ (k : KHash) (ep : Epoll) (call : Callback (Polls k.Table)) {v : Watches} where
  pub dispatch-Follows :
      (e g : Loop (Polls k.Table)) (fd : ℤ) (read : Bool) (b asked_for : Bits) (p : ℕ)
      → Follows k ep e.rest [] v
      → v fd read ≢ null
      → ep.interest e.rest.calls fd ≡ some (asked_for, p)
      → IsFor read b
      → call (e.rest.watch_fn (v fd read)) (v fd read) e ≡ ok g
      → Keeps e.rest g.rest
      → (asked_for ≡ awaited v fd) × (dispatch call (record { ptr = p; events = b }) e ≡ ok g)
  dispatch-Follows e g fd read b asked_for p h nz known for_side ends kept =
      let (p2, q, heard, at, rd, wr) = (Follows-Heard k ep e.rest v h).waits fd read nz in
      let same : some (asked_for, p) ≡ some (awaited v fd, p2) = sym known ∙ heard in
      let at_p : e.rest.poll p ≡ some q = ap e.rest.poll (ap second same) ∙ at in
      let (r, after) = kept p q at_p in
      let is : side read (some q) ≡ v fd read = ground (arith, rd, wr) in
      (
        ap first same,
        by_side call e g p q r b at_p after read (v fd read) is nz for_side (h.armed fd read nz)
            ends,
      )

module _ (k : KHash) (ep : Epoll) (sec nsec : ℕ) (l : Loop (Polls k.Table))
    (fresh : (a : ℕ) → l.rest.poll a ≡ none)
    (unused : (fd : ℤ) → ep.interest l.rest.calls fd ≡ none) where
  -- Let a program initialise a loop that has no polls, with a new descriptor of epoll, and then watch,
  -- unwatch and close descriptors and run the loop over the dirty list, in any order, where each operation
  -- is allowed, until the dirty list is empty. Let the kernel report events for one side of a descriptor
  -- that a watch waits for, with the pointer that it has for this descriptor. Then it was asked for
  -- exactly the events of the descriptor's watches, and the body of the loop over the events calls the
  -- function of that watch with the watch, and nothing else, if the function returns and frees no poll.
  pub dispatch-Reached :
      (call : Callback (Polls k.Table)) (e g : Loop (Polls k.Table)) (v : Watches) (fd : ℤ)
      (read : Bool) (b asked_for : Bits) (p : ℕ)
      → Reached k (evloop_init k sec nsec l).rest e.rest v
      → Chain e.rest.poll e.rest.dirty_list []
      → v fd read ≢ null
      → ep.interest e.rest.calls fd ≡ some (asked_for, p)
      → IsFor read b
      → call (e.rest.watch_fn (v fd read)) (v fd read) e ≡ ok g
      → Keeps e.rest g.rest
      → (asked_for ≡ awaited v fd) × (dispatch call (record { ptr = p; events = b }) e ≡ ok g)
  dispatch-Reached call e g v fd read b asked_for p r c nz known for_side ends kept =
      let h = Reached-dirty k ep sec nsec l fresh unused e.rest v r [] c in
      dispatch-Follows k ep call e g fd read b asked_for p h nz known for_side ends kept
