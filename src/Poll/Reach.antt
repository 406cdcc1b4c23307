-- ===== src/Poll/Reach.antt =====
-- evloop.epoll.c: the states of the polls that a program reaches from evloop_init, by any sequence of
-- operations, and what the kernel waits for then.
use cthread.Base.{
  length, ℕ, ◌<◌, Bool, true, false, not, List, [], ◌∷◌, none, some, ◌≡◌, ◌≢◌, ◌==◌, refl, arith,
  sym, ap, ◌∙◌, subst,
}
use cthread.Word.{ℤ}
use cthread.Run.{ok, Returns, Returns-map, Returns-at}
use cthread.Timers.{Loop}
use cthread.Poll.{null, Bits, no_bits, Poll, Polls, KHash, is_open, any_bits, wanted, flush}
use cthread.Poll.Inv.{Chain, nil, cons, Memory, side, held_poll}
use cthread.Poll.Init.{evloop_init_lem}
use cthread.Poll.Step.{evloop_init}
use cthread.Poll.Kernel.{Epoll}
use cthread.Poll.View.{Watches, nobody, open_poll}
use cthread.Poll.Op.{Op, perform, after, Allowed, Follows}
use cthread.Poll.Refine.{perform-Follows, flush-Follows}

-- A state that is reached from `s0`, with the watches that the operations have put on the descriptors:
-- each operation is allowed, where the dirty list runs through `xs`.
pub data Reached (k : KHash) (s0 : Polls k.Table) : Polls k.Table → Watches → Type 0 where
  from_init : Reached k s0 s0 nobody
  performs :
      {s g : Polls k.Table} {v : Watches}
      → Reached k s0 s v
      → (op : Op) (xs : List ℕ) → Chain s.poll s.dirty_list xs
      → Allowed k op s xs v
      → perform k op s ≡ ok g
      → Reached k s0 g (after op v)

-- the links lead through one list only
Chain-unique : {m : Memory} {p : ℕ} {xs ys : List ℕ} → Chain m p xs → Chain m p ys → xs ≡ ys
Chain-unique nil nil = refl
Chain-unique nil (cons nz d n out c) = absurd (nz refl)
Chain-unique (cons nz d n out c) nil = absurd (nz refl)
Chain-unique {m} (cons {p} nz d e out c) (cons {xs = ys} nz2 d2 e2 out2 c2) =
    ap (◌∷◌ p) (Chain-unique c (subst (λ n. Chain m n ys) (sym e2 ∙ e) c2))

-- the events that the watches of a descriptor want, edge triggered
abbrev pub awaited : Watches → ℤ → Bits
awaited v fd = record no_bits {
  et = true;
  rd = not (v fd true == null);
  hup = not (v fd true == null);
  wr = not (v fd false == null);
}

wants-side : (q : Poll) (c : Bool) → side c (some q) ≢ null → any_bits (wanted q) ≡ true
wants-side q true nz = ground arith
wants-side q false nz = ground arith

module _ (k : KHash) (e : Epoll) where
  -- what the kernel waits for
  pub record Heard (g : Polls k.Table) (v : Watches) : Type 0 where
    pub waits :
        (fd : ℤ) (read : Bool)
        → v fd read ≢ null
        → (p : ℕ) × (q : Poll) × (e.interest g.calls fd ≡ some (awaited v fd, p))
          × (g.poll p ≡ some q)
          × (q.rd ≡ v fd true)
          × (q.wr ≡ v fd false)
    pub strange :
        (fd : ℤ) → is_open fd ≡ true → k.find g.pollers fd ≡ none → e.interest g.calls fd ≡ none

  -- what the kernel waits for on a descriptor with a watch
  pub Follows-waits :
      (g : Polls k.Table) (v : Watches)
      → Follows k e g [] v
      → (fd : ℤ) (read : Bool) → v fd read ≢ null
      → (q : Poll) × (e.interest g.calls fd ≡ some (awaited v fd, g.poll_data (v fd read)))
        × (g.poll (g.poll_data (v fd read)) ≡ some q)
        × (q.rd ≡ v fd true)
        × (q.wr ≡ v fd false)
        × (is_open q.fd ≡ true)
  Follows-waits g v h fd read nz =
      let found = h.linked fd read nz in
      let p : ℕ = g.poll_data (v fd read) in
      let (q, held, is) = held_poll fd (g.poll p) (h.inv.table fd p found) in
      let (q2, held2, o) = open_poll fd (g.poll p) (h.inv.table fd p found) in
      let same : q2 ≡ q = ground (arith, held) in
      let sides : (c : Bool) → side c (some q) ≡ v fd c = λ c. rw (found, held) at (h.view fd c) in
      let open_q : is_open q.fd ≡ true = rw (← same) o in
      let wants : any_bits (wanted q) ≡ true = wants-side q read (λ z. nz (sym (sides read) ∙ z)) in
      let told = h.told.synced p q held refl open_q wants in
      (
        q,
        ap (e.interest g.calls) (sym is) ∙ told ∙ ground (arith, sides true, sides false),
        held,
        sides true,
        sides false,
        open_q,
      )

  pub Follows-Heard : (g : Polls k.Table) (v : Watches) → Follows k e g [] v → Heard g v
  Follows-Heard g v h = record {
    waits = λ fd read nz.
        let (q, told, held, rd, wr, o) = Follows-waits g v h fd read nz in
        (g.poll_data (v fd read), q, told, held, rd, wr);
    strange = λ fd o f. h.told.unknown fd o λ a q at same.
        let found = (h.inv.each a q at).found (rw same o) in
        let clash : k.find g.pollers fd ≡ some a = rw (← same) found in cc;
  }

module _ (k : KHash) (e : Epoll) (sec nsec : ℕ) (l : Loop (Polls k.Table))
    (fresh : (a : ℕ) → l.rest.poll a ≡ none)
    (unused : (fd : ℤ) → e.interest l.rest.calls fd ≡ none) where
  abbrev start : Polls k.Table
  start = (evloop_init k sec nsec l).rest

  start-Follows : Follows k e start [] nobody
  unfolding evloop_init
  start-Follows =
      let (ready, inv, timers) = evloop_init_lem k sec nsec l fresh in
      record {
        inv = inv;
        told = record {
          distinct = λ a b q r h1 h2 o eq. absurd (ground (arith, fresh a));
          plain = λ a q h. absurd (ground (arith, fresh a));
          known = λ a q h o. absurd (ground (arith, fresh a));
          synced = λ a q h out o w. absurd (ground (arith, fresh a));
          unknown = λ j o h. unused j;
        };
        view = λ j c. rw (k.find-init j) refl;
        linked = λ j c nz. absurd (nz refl);
        armed = λ j c nz. absurd (nz refl);
        once = λ i j b c eq nz. absurd (nz refl);
      }

  -- Let a program initialise a loop that has no polls, with a new descriptor of epoll, and then set
  -- the functions of watches, watch, unwatch and close descriptors and run the loop over the dirty list,
  -- in any order, where each operation is allowed. Then the polls are well formed, each side of each
  -- descriptor holds the watch that was put there last and not taken off, every such watch has a function
  -- and points at the poll of its descriptor. The kernel knows exactly the wanted events of the polls of
  -- open descriptors that have a watch and are not dirty; the descriptor of a poll is registered exactly
  -- if the poll has the flag EPOLLET, and no open descriptor without a poll is.
  pub Reached-Follows :
      (s : Polls k.Table) (v : Watches) → Reached k start s v → (xs : List ℕ) × Follows k e s xs v
  Reached-Follows _ _ from_init = ([], start-Follows)
  Reached-Follows g _ (performs {s} {v} r op xs c allowed ends) =
      let (ys, h) = Reached-Follows s v r in
      let same : ys ≡ xs = Chain-unique h.inv.chain c in
      let here : Follows k e s xs v = subst (λ zs. Follows k e s zs v) same h in
      Returns-at (perform-Follows e k here op allowed) ends

  pub Reached-dirty :
      (s : Polls k.Table) (v : Watches)
      → Reached k start s v
      → (xs : List ℕ) → Chain s.poll s.dirty_list xs
      → Follows k e s xs v
  Reached-dirty s v r xs c =
      let (ys, h) = Reached-Follows s v r in
      subst (λ zs. Follows k e s zs v) (Chain-unique h.inv.chain c) h

  -- In every state that such a program reaches, the loop over the dirty list returns, with more fuel
  -- than polls are on the list. After it the kernel waits, for each descriptor with a watch, for
  -- exactly the events of the watches that were put there last and not taken off, edge triggered, with
  -- a pointer to a poll that holds these watches; and no open descriptor that has no poll is
  -- registered. A poll that has lost its last watch may stay registered with its old events.
  pub flush-Heard :
      (s : Polls k.Table) (v : Watches)
      → Reached k start s v
      → (xs : List ℕ) (fuel : ℕ) → Chain s.poll s.dirty_list xs
      → length xs < fuel
      → Returns (λ g. Heard k e g v) (flush fuel s)
  flush-Heard s v r xs fuel c enough =
      Returns-map (flush-Follows e k (Reached-dirty s v r xs c) fuel enough)
        λ g f. Follows-Heard k e g v f
