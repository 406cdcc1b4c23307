-- ===== src/Poll/Init.antt =====
-- evloop.epoll.c: the loop that evloop_init sets up.
use cthread.Base.{ℕ, ◌≡◌, [], none, arith}
use cthread.Word.{IsNear, sub32}
use cthread.Heap.Links.{lookup}
use cthread.Timers.{Loop}
use cthread.Timers.Deadline.{IsReady}
use cthread.Poll.{Polls, KHash}
use cthread.Poll.Inv.{nil, PollInv}
use cthread.Poll.Step.{evloop_init, get_ticks}

get_ticks-IsNear : (sec nsec : ℕ) → IsNear (get_ticks sec nsec) (get_ticks sec nsec)
unfolding get_ticks sub32
get_ticks-IsNear sec nsec = record { origin = omega arith; word = omega arith; near = omega arith }

-- If no poll is allocated yet, evloop_init leaves a loop that is well formed at its own time, with no
-- timer, an empty dirty list and a table without descriptors.
pub evloop_init_lem :
    (k : KHash) (sec nsec : ℕ) (e : Loop (Polls k.Table))
    → ((a : ℕ) → e.rest.poll a ≡ none)
    → IsReady (get_ticks sec nsec) (evloop_init k sec nsec e)
      × PollInv k (evloop_init k sec nsec e).rest []
      × ((n : ℕ) → lookup (evloop_init k sec nsec e).timers n ≡ none)
unfolding evloop_init lookup
evloop_init_lem k sec nsec e free = (
  record {
    queue = record {
      links = record {
        room = λ h. omega arith;
        small = omega arith;
        linked = λ i p q. absurd (omega arith);
      };
      order = λ c p q. absurd (omega arith);
      window = λ n x h. absurd (ground arith);
    };
    clock = get_ticks-IsNear sec nsec;
    set = λ n x h. absurd (ground arith);
  },
  record {
    chain = nil;
    null_free = free 0;
    each = λ p q h. absurd (ground (arith, free p));
    table = λ fd p h. absurd (ground (arith, k.find-init fd));
  },
  λ n. ground arith,
)
