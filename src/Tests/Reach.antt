-- ===== src/Tests/Reach.antt =====
-- evloop.epoll.c: a program with two watches on descriptor 3.
use cthread.Base.{◌≡◌, ℕ, refl, true, false, List, [], ◌∷◌, some, arith}
use cthread.Word.{pos}
use cthread.Run.{Run, ok, fault, abort, ◌>>=◌, Returns}
use cthread.Timers.{Loop}
use cthread.Poll.Leftover.{flush-ev_unwatch}
use cthread.Poll.Stale.{ev_unwatch-ev_close}
use cthread.Poll.Calls.{dispatch-Reached}
use cthread.Poll.{
  null, Poll, Bits, no_bits, Polls, ev_watch, ev_unwatch, ev_close, flush, obtain, attach,
  mark_dirty, load_poll, tell, flush_loop,
}
use cthread.Poll.Inv.{Chain, nil, cons}
use cthread.Poll.View.{Watches, nobody, set_watch}
use cthread.Poll.Op.{watches, flushes, Follows}
use cthread.Poll.Reach.{awaited, Reached, from_init, performs, Reached-Follows, Heard, flush-Heard}
use cthread.Poll.Step.{dispatch, evloop_init}
use cthread.Tests.Table.{Entries, functions}
use cthread.Tests.Poll.{idle, kernel, before_init}

abbrev initial : Polls Entries
initial = (evloop_init functions 5 7000000 before_init).rest

abbrev or_initial : Run (Polls Entries) → Polls Entries
or_initial (ok s) = s
or_initial fault = initial
or_initial abort = initial

-- the watch at 100 reads descriptor 3, with a poll at 16
abbrev reads : Polls Entries
reads = or_initial (ev_watch functions 16 100 (pos 3) true initial)

reads-Reached : Reached functions initial reads (set_watch nobody (pos 3) true 100)
unfolding evloop_init ev_watch obtain attach mark_dirty load_poll cthread.Tests.Table.key
    cthread.Tests.Table.entry
reads-Reached =
    performs from_init (watches 16 100 (pos 3) true) [] nil
      (
        (λ e. absurd (omega arith)),
        refl,
        (λ j c e. absurd (omega arith)),
        refl,
        (λ e. absurd (omega arith)),
        refl,
      )
      refl

abbrev told : Polls Entries
told = or_initial (flush 2 reads)

told-Reached : Reached functions initial told (set_watch nobody (pos 3) true 100)
unfolding evloop_init ev_watch obtain attach mark_dirty load_poll flush flush_loop tell
    cthread.Tests.Table.key cthread.Tests.Table.entry
told-Reached =
    performs reads-Reached (flushes 2) (16 ∷ [])
      (cons (λ e. absurd (omega arith)) refl refl refl nil) (omega arith) refl

-- the watch at 200 writes it
abbrev both : Polls Entries
both = or_initial (ev_watch functions 32 200 (pos 3) false told)

abbrev two_watches : Watches
two_watches = set_watch (set_watch nobody (pos 3) true 100) (pos 3) false 200

both-Reached : Reached functions initial both two_watches
unfolding evloop_init ev_watch obtain attach mark_dirty load_poll flush flush_loop tell
    cthread.Tests.Table.key cthread.Tests.Table.entry
both-Reached =
    performs told-Reached (watches 32 200 (pos 3) false) [] nil
      (
        (λ e. absurd (omega arith)),
        refl,
        (λ j c e. absurd (ground arith)),
        refl,
        (λ e. absurd (omega arith)),
        refl,
      )
      refl

Reached-Follows_example : (xs : List ℕ) × Follows functions kernel both xs two_watches
Reached-Follows_example =
    Reached-Follows functions kernel 5 7000000 before_init (λ a. refl) (λ fd. refl) both two_watches
      both-Reached

both-Chain : Chain both.poll both.dirty_list (16 ∷ [])
unfolding evloop_init ev_watch obtain attach mark_dirty load_poll flush flush_loop tell
    cthread.Tests.Table.key cthread.Tests.Table.entry
both-Chain = cons (λ e. absurd (omega arith)) refl refl refl nil

flush-Heard_example : Returns (λ g. Heard functions kernel g two_watches) (flush 2 both)
flush-Heard_example =
    flush-Heard functions kernel 5 7000000 before_init (λ a. refl) (λ fd. refl) both two_watches
      both-Reached (16 ∷ []) 2 both-Chain (omega arith)

-- both watches are known to the kernel
abbrev known : Polls Entries
known = or_initial (flush 2 both)

known-Reached : Reached functions initial known two_watches
unfolding evloop_init ev_watch obtain attach mark_dirty load_poll flush flush_loop tell
    cthread.Tests.Table.key cthread.Tests.Table.entry
known-Reached = performs both-Reached (flushes 2) (16 ∷ []) both-Chain (omega arith) refl

abbrev writable : Bits
writable = record no_bits { wr = true }

abbrev known_loop : Loop (Polls Entries)
known_loop = record before_init { rest = known }

dispatch-Reached_example :
    (record writable { et = true; rd = true; hup = true } ≡ awaited two_watches (pos 3))
    × (dispatch idle (record { ptr = 16; events = writable }) known_loop ≡ ok known_loop)
unfolding evloop_init ev_watch obtain attach mark_dirty load_poll flush flush_loop tell
    cthread.Tests.Table.key cthread.Tests.Table.entry
dispatch-Reached_example =
    dispatch-Reached functions kernel 5 7000000 before_init (λ a. refl) (λ fd. refl) idle known_loop
      known_loop two_watches (pos 3) false writable
      (record writable { et = true; rd = true; hup = true }) 16 known-Reached nil
      (λ e. absurd (omega arith)) refl (refl, refl) refl (λ p q h. (q, h))

ev_unwatch-ev_close_example :
    Returns (λ g. ev_unwatch 100 g ≡ fault) (ev_close functions (pos 3) known)
ev_unwatch-ev_close_example =
    ev_unwatch-ev_close functions kernel 5 7000000 before_init (λ a. refl) (λ fd. refl) known
      two_watches known-Reached (pos 3) true (λ e. absurd (omega arith))

-- 100 was the only watch of descriptor 3
flush-ev_unwatch_example :
    Returns
      (λ g.
        (p : ℕ) × (r : Poll) × (kernel.interest g.calls (pos 3)
          ≡ some (awaited (set_watch nobody (pos 3) true 100) (pos 3), p))
        × (g.poll p ≡ some r)
        × (r.rd ≡ null)
        × (r.wr ≡ null))
      (ev_unwatch 100 told >>= flush 2)
unfolding evloop_init ev_watch obtain attach mark_dirty load_poll flush flush_loop tell
    cthread.Tests.Table.key cthread.Tests.Table.entry
flush-ev_unwatch_example =
    flush-ev_unwatch functions kernel 5 7000000 before_init (λ a. refl) (λ fd. refl) told
      (set_watch nobody (pos 3) true 100) told-Reached refl (pos 3) true 2
      (λ e. absurd (omega arith)) refl (omega arith)
