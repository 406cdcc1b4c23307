-- ===== src/Poll/Leftover.antt =====
-- evloop.epoll.c: what the kernel still waits for on a descriptor that has lost its last watch.
use cthread.Base.{
  ℕ, zero, suc, ◌<◌, Bool, true, false, ◌||◌, not, [], none, some, ◌≡◌, ◌≢◌, ◌==◌, ◌⊎◌, inl, inr,
  refl, arith, sym, ap, ◌∙◌, if◌then◌else◌, update, subst,
}
use cthread.Word.{ℤ}
use cthread.Run.{◌>>=◌, Returns, returns, Returns-bind, Returns-map}
use cthread.Timers.{Loop}
use cthread.Poll.{
  null, Poll, Polls, KHash, is_open, any_bits, wanted, load_poll, set_poll, mark_dirty, tell,
  flush_loop, ev_unwatch, flush,
}
use cthread.Poll.Inv.{Chain, nil, IsPlain}
use cthread.Poll.Kernel.{Epoll, tell-idle}
use cthread.Poll.Flush.{cleaned, tell-poll}
use cthread.Poll.Step.{evloop_init}
use cthread.Poll.Touch.{p-ne-null}
use cthread.Poll.Dispatch.{load_poll-ok}
use cthread.Poll.View.{Watches}
use cthread.Poll.Op.{Follows}
use cthread.Poll.Reach.{Reached, Reached-dirty, Follows-waits, awaited}

-- one poll is dirty, and nothing is wanted of it
record Idle {T : Type 0} (s g : Polls T) (p : ℕ) : Type 0 where
  node : Poll
  here : g.poll p ≡ some node
  dirty_list : g.dirty_list ≡ p
  last : node.next ≡ null
  open_fd : is_open node.fd ≡ true
  plain : IsPlain node
  rd : node.rd ≡ null
  wr : node.wr ≡ null
  calls : g.calls ≡ s.calls

module _ {T : Type 0} where
  mark-Idle :
      (s t : Polls T) (p : ℕ) (q : Poll)
      → t.poll p ≡ some q
      → q.flags.err ≡ false
      → t.dirty_list ≡ null
      → is_open q.fd ≡ true
      → IsPlain q
      → q.rd ≡ null
      → q.wr ≡ null
      → t.calls ≡ s.calls
      → Returns (λ g. Idle s g p) (mark_dirty p t)
  unfolding mark_dirty
  mark-Idle s t p q held clean empty o plain rd wr same =
      rw (load_poll-ok t p q held, clean)
        (returns (record {
          node = record q { flags = record (q.flags) { err = true }; next = t.dirty_list };
          here = ground arith;
          dirty_list = refl;
          last = empty;
          open_fd = o;
          plain = plain;
          rd = rd;
          wr = wr;
          calls = same;
        }))

  unwatch-Idle :
      (s : Polls T) (w p : ℕ) (q : Poll)
      → s.poll_data w ≡ p
      → p ≢ null
      → s.poll p ≡ some q
      → is_open q.fd ≡ true
      → IsPlain q
      → q.flags.err ≡ false
      → s.dirty_list ≡ null
      → (q.rd ≡ w) ⊎ (q.wr ≡ w)
      → (if q.rd == w then q.wr else q.rd) ≡ null
      → Returns (λ g. Idle s g p) (ev_unwatch w s)
  unfolding ev_unwatch
  unwatch-Idle s w p q at nz held o plain clean empty mine alone =
      let some_poll : (p == null) ≡ false = ground arith in
      let test : (q.rd == w || q.wr == w) ≡ true = ground arith in
      let t : Polls T = record s {
        poll_data = update s.poll_data w null;
        watch_fn = update s.watch_fn w null;
      } in
      let u : Poll = if q.rd == w then record q { rd = null } else record q { wr = null } in
      rw (at, some_poll, load_poll, held, test)
        (mark-Idle s (set_poll t p u) p u (ground arith) (ground arith) empty (ground arith)
          (ground arith, ground arith, ground arith) (ground arith) (ground arith) refl)

  -- the calls are those of `s`, and the poll has no watch
  abbrev Silent : Polls T → ℕ → Polls T → Type 0
  Silent s p h =
      (h.calls ≡ s.calls) × ((r : Poll) × (h.poll p ≡ some r) × (r.rd ≡ null) × (r.wr ≡ null))

  -- a poll of which nothing is wanted is cleaned without a call of the kernel
  loop-Silent :
      (e : Epoll) (s g : Polls T) (p fuel : ℕ)
      → 1 < fuel
      → p ≢ null
      → Idle s g p
      → Returns (Silent s p) (flush_loop fuel p g)
  unfolding flush_loop
  loop-Silent e s g p zero f nz i = absurd (omega arith)
  loop-Silent e s g p (suc zero) f nz i = absurd (omega arith)
  loop-Silent e s g p (suc (suc n)) f nz i =
      let q = i.node in
      let some_poll : (p == null) ≡ false = ground arith in
      let quiet : any_bits (wanted q) ≡ false = ground (arith, i.rd, i.wr) in
      let t : Polls T = set_poll g p (cleaned q) in
      let same : (tell p (cleaned q) t).calls ≡ g.calls =
        tell-idle e t p (cleaned q) i.plain quiet in
      rw (some_poll, load_poll-ok g p q i.here, i.last)
        (returns (
          same ∙ i.calls,
          (
            record q {
              next = null;
              flags = record (q.flags) { err = false; et = q.flags.et || any_bits (wanted q) };
            },
            ground (arith, tell-poll g p p q, i.open_fd),
            i.rd,
            i.wr,
          ),
        ))

  flush-Silent :
      (e : Epoll) (s g : Polls T) (p fuel : ℕ)
      → 1 < fuel
      → p ≢ null
      → Idle s g p
      → Returns (Silent s p) (flush fuel g)
  unfolding flush
  flush-Silent e s g p fuel f nz i =
      Returns-bind
        (subst (λ d. Returns (Silent s p) (flush_loop fuel d g)) (sym i.dirty_list)
          (loop-Silent e s g p fuel f nz i))
        λ h x. returns x

one_side :
    (q : Poll) (v : Watches) (fd : ℤ) (read : Bool)
    → v fd read ≢ null
    → v fd (not read) ≡ null
    → q.rd ≡ v fd true
    → q.wr ≡ v fd false
    → ((q.rd ≡ v fd read) ⊎ (q.wr ≡ v fd read))
      × ((if q.rd == v fd read then q.wr else q.rd) ≡ null)
one_side q v fd true nz alone rd wr = (inl rd, ground arith)
one_side q v fd false nz alone rd wr = (inr wr, ground arith)

module _ (k : KHash) (e : Epoll) {s : Polls k.Table} {v : Watches} (h : Follows k e s [] v)
    (empty : s.dirty_list ≡ null) where
  leaves :
      (fd : ℤ) (read : Bool) (fuel : ℕ)
      → v fd read ≢ null
      → v fd (not read) ≡ null
      → 1 < fuel
      → Returns
          (λ g.
            (p : ℕ) × (r : Poll) × (e.interest g.calls fd ≡ some (awaited v fd, p))
            × (g.poll p ≡ some r)
            × (r.rd ≡ null)
            × (r.wr ≡ null))
          (ev_unwatch (v fd read) s >>= flush fuel)
  leaves fd read fuel nz alone f =
      let w : ℕ = v fd read in
      let p : ℕ = s.poll_data w in
      let (q, told, held, rd, wr, o) = Follows-waits k e s v h fd read nz in
      let p_nz = p-ne-null k s [] h.inv p q held in
      let clean : q.flags.err ≡ false = ground (arith, (h.inv.each p q held).listed) in
      let (mine, other) = one_side q v fd read nz alone rd wr in
      Returns-bind
        (unwatch-Idle s w p q refl p_nz held o (h.told.plain p q held) clean empty mine other)
        λ t i. Returns-map (flush-Silent e s t p fuel f p_nz i) λ g (same, (r, here, no_rd, no_wr)).
          (p, r, ap (λ c. e.interest c fd) same ∙ told, here, no_rd, no_wr)

module _ (k : KHash) (e : Epoll) (sec nsec : ℕ) (l : Loop (Polls k.Table))
    (fresh : (a : ℕ) → l.rest.poll a ≡ none)
    (unused : (fd : ℤ) → e.interest l.rest.calls fd ≡ none) where
  -- In every state that a program reaches from evloop_init by setting the functions of watches, by
  -- watching, unwatching and closing descriptors and by the loop over the dirty list, where each
  -- operation is allowed: if no poll is dirty and a descriptor has one watch, ev_unwatch of it and the
  -- loop over the dirty list after it return, and the kernel then still waits for the events of that
  -- watch, with a pointer to a poll that has no watch.
  pub flush-ev_unwatch :
      (s : Polls k.Table) (v : Watches)
      → Reached k (evloop_init k sec nsec l).rest s v
      → s.dirty_list ≡ null
      → (fd : ℤ) (read : Bool) (fuel : ℕ) → v fd read ≢ null
      → v fd (not read) ≡ null
      → 1 < fuel
      → Returns
          (λ g.
            (p : ℕ) × (r : Poll) × (e.interest g.calls fd ≡ some (awaited v fd, p))
            × (g.poll p ≡ some r)
            × (r.rd ≡ null)
            × (r.wr ≡ null))
          (ev_unwatch (v fd read) s >>= flush fuel)
  flush-ev_unwatch s v r empty fd read fuel nz alone f =
      let c : Chain s.poll s.dirty_list [] = subst (λ p. Chain s.poll p []) (sym empty) nil in
      leaves k e (Reached-dirty k e sec nsec l fresh unused s v r [] c) empty fd read fuel nz alone
        f
