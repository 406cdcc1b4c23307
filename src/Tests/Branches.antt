-- ===== src/Tests/Branches.antt =====
-- evloop.epoll.c: evloop_step with functions that do nothing.
use cthread.Base.{refl, List, [], ◌∷◌, some, true, arith}
use cthread.Word.{sub32}
use cthread.Run.{Returns, returns}
use cthread.Heap.Count.{total}
use cthread.Timers.Step.{Contract}
use cthread.Poll.{no_bits}
use cthread.Poll.Step.{Event, interrupted, ready, try_again, evloop_step}
use cthread.Poll.Dispatch.{Awake}
use cthread.Poll.Branches.{Outcome, evloop_step-Outcome}
use cthread.Tests.Table.{functions}
use cthread.Tests.Poll.{
  reader, one_poll-PollInv, waiting_loop, waiting_loop-IsReady, idle, idle-Wakes,
}

idle-Contract : Contract 0 idle (Awake functions) (λ t. Awake functions)
idle-Contract = record {
  takes =
      λ e h t x a held passed least items. record { list = a.list; inv = a.inv; armed = a.armed };
  behaves = λ e t r gone a. returns (r, omega arith, a);
}

abbrev waiting_loop-Awake : Awake functions waiting_loop
waiting_loop-Awake = record {
  list = 16 ∷ [];
  inv = one_poll-PollInv true;
  armed = λ p q w h mine nz e. absurd (omega arith);
}

-- descriptor 3 can be read
abbrev readable : List Event
readable = record { ptr = 16; events = record no_bits { rd = true } } ∷ []

evloop_step-Outcome_example :
    Returns
      (λ r.
        Awake functions r.1
        × Outcome functions idle 0 9 5 7000000 waiting_loop (16 ∷ []) (some readable) r)
      (evloop_step idle 9 2 (interrupted ∷ ready readable ∷ []) 5 7000000 waiting_loop)
unfolding try_again total sub32
evloop_step-Outcome_example =
    evloop_step-Outcome functions idle idle-Contract idle-Wakes waiting_loop 9 2 5 7000000
      (interrupted ∷ ready readable ∷ []) (some readable) waiting_loop-Awake waiting_loop-IsReady
      (ground arith) (omega arith) refl ((reader true, refl, refl), tt)
