-- ===== src/Tests/Poll.antt =====
-- evloop.epoll.c at small inputs: the descriptors 3 and 4.
use cthread.Base.{
  ℕ, ◌≡◌, refl, inl, inr, sym, Bool-cases, Bool, true, false, not, List, [], ◌∷◌, Option, none,
  some, arith, if◌then◌else◌, update,
}
use cthread.Word.{sub32, ℤ, pos, eq_int, eq_int-eq, eq_int_refl}
use cthread.Run.{ok, abort, Returns, returns}
use cthread.Poll.{null, Bits, no_bits, Poll, Polls, Syscall, ctl_add, ctl_mod, close, ev_watch}
use cthread.Poll.Inv.{Chain, nil, cons, PollInv, PollOk}
use cthread.Timers.{Loop, Callback}
use cthread.Timers.Deadline.{IsReady}
use cthread.Heap.Links.{lookup}
use cthread.Poll.Init.{evloop_init_lem}
use cthread.Poll.Step.{get_ticks, evloop_init, evloop_destroy}
use cthread.Poll.Refusal.{no_memory, ev_watch-Refusal}
use cthread.Poll.Destroy.{Destroyed, evloop_destroy_lem}
use cthread.Poll.Dispatch.{Wakes}
use cthread.Tests.Table.{Entries, nothing, table_set, functions}
use cthread.Tests.Heap.{sample, sample-IsQueue}
use cthread.Poll.Kernel.{Epoll, asked}

-- the poll of descriptor 3, with the watch at 100 for reading
abbrev pub reader : Bool → Poll
reader dirty = record {
  next = null;
  rd = 100;
  wr = null;
  fd = pos 3;
  flags = record no_bits { err = dirty; et = not dirty };
}

abbrev pub one_poll : Bool → Polls Entries
one_poll dirty = record {
  dirty_list = if dirty then 16 else null;
  pollers = table_set nothing (pos 3) (some 16);
  poll = update (λ a. none) 16 (some (reader dirty));
  watch_fn = λ w. 1;
  poll_data = update (λ w. null) 100 16;
  calls = if dirty then [] else ctl_add (pos 3) (asked (reader false) 16).0 16 ∷ [];
}

abbrev dirty_polls : Bool → List ℕ
dirty_polls dirty = if dirty then 16 ∷ [] else []

one_poll-Chain :
    (dirty : Bool) → Chain (one_poll dirty).poll (one_poll dirty).dirty_list (dirty_polls dirty)
one_poll-Chain true = cons (λ e. absurd (omega arith)) refl refl refl nil
one_poll-Chain false = nil

reader-PollOk :
    (dirty : Bool) → PollOk functions (one_poll dirty).pollers (dirty_polls dirty) 16 (reader dirty)
reader-PollOk true = record { listed = λ e. refl; found = λ o. refl; closed = λ o. cc }
reader-PollOk false = record { listed = λ e. cc; found = λ o. refl; closed = λ o. cc }

at_16 :
    (dirty : Bool) (p : ℕ) (q : Poll)
    → (one_poll dirty).poll p ≡ some q
    → (p ≡ 16) × (q ≡ reader dirty)
at_16 dirty p q h = (ground arith, ground arith)

of_3 :
    (dirty : Bool) (fd : ℤ) (p : ℕ)
    → functions.find (one_poll dirty).pollers fd ≡ some p
    → (p ≡ 16) × (fd ≡ pos 3)
of_3 dirty fd p h = elim (Bool-cases (eq_int (pos 3) fd)) [
  | inl same ↦ (ground arith, sym (eq_int-eq (pos 3) fd same))
  | inr other ↦ absurd (ground arith)
]

pub one_poll-PollInv : (dirty : Bool) → PollInv functions (one_poll dirty) (dirty_polls dirty)
one_poll-PollInv dirty = record {
  chain = one_poll-Chain dirty;
  null_free = refl;
  each = λ p q h. let (here, is) = at_16 dirty p q h in rw (here, is) (reader-PollOk dirty);
  table = λ fd p h. let (here, is) = of_3 dirty fd p h in rw (here, is) (refl, refl);
}

-- no memory for descriptor 4
ev_watch-Refusal_example : ev_watch functions null 200 (pos 4) true (one_poll false) ≡ abort
ev_watch-Refusal_example =
    ev_watch-Refusal functions (one_poll false) null 200 (pos 4) true
      (no_memory (λ e. absurd (omega arith)) refl refl)

-- a kernel that keeps the last call for each descriptor
abbrev pub last_call : List Syscall → ℤ → Option (Bits × ℕ)
last_call [] j = none
last_call (ctl_add d b p ∷ c) j =
    let rest = last_call c j in if eq_int d j then some (b, p) else rest
last_call (ctl_mod d b p ∷ c) j =
    let rest = last_call c j in if eq_int d j then some (b, p) else rest
last_call (close d ∷ c) j = let rest = last_call c j in if eq_int d j then none else rest

abbrev pub kernel : Epoll
kernel = record {
  interest = last_call;
  interest-close = λ c d. rw (eq_int_refl d) refl;
  interest-add = λ c d b p e. rw (eq_int_refl d) refl;
  interest-mod = λ c d b p r e. rw (eq_int_refl d) refl;
  add-other = λ c d j b p e. rw e refl;
  mod-other = λ c d j b p e. rw e refl;
  close-other = λ c d j e. rw e refl;
}

-- the loop at 70 with the first timer at 100
abbrev pub waiting_loop : Loop (Polls Entries)
waiting_loop = record { timers = sample; now = 70; fn = λ t. 1; rest = one_poll true }

pub waiting_loop-IsReady : IsReady 0 waiting_loop
unfolding sub32
waiting_loop-IsReady = record {
  queue = sample-IsQueue;
  clock = ground arith;
  set = λ t x e. omega arith;
}

-- a function that does nothing
abbrev pub idle : Callback (Polls Entries)
idle f w e = ok e

pub idle-Wakes : Wakes functions idle
idle-Wakes e w a fn = returns (a, λ p q h. (q, h))

abbrev pub before_init : Loop (Polls Entries)
before_init = record waiting_loop { rest = record (one_poll true) { poll = λ a. none } }

evloop_init_lem_example :
    IsReady (get_ticks 5 7000000) (evloop_init functions 5 7000000 before_init)
    × PollInv functions (evloop_init functions 5 7000000 before_init).rest []
    × ((n : ℕ) → lookup (evloop_init functions 5 7000000 before_init).timers n ≡ none)
evloop_init_lem_example = evloop_init_lem functions 5 7000000 before_init (λ a. refl)

evloop_destroy_lem_example :
    Returns
      (λ g. Destroyed functions (one_poll-PollInv true) (pos 9) g.rest)
      (evloop_destroy functions (pos 9) waiting_loop)
evloop_destroy_lem_example =
    evloop_destroy_lem functions (pos 9) waiting_loop (16 ∷ []) (one_poll-PollInv true)
