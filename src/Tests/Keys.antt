-- ===== src/Tests/Keys.antt =====
-- evloop.epoll.c and cthread.c: two threads of the system with a loop each.
use cthread.Base.{
  ℕ, suc, ◌≡◌, ◌==◌, ◌&&◌, Bool, true, false, not, Option, none, some, ltb, if◌then◌else◌, refl, ap,
  arith,
}
use cthread.Run.{Run, ok, fault, abort}
use cthread.Keys.{
  Pthreads, Keys, key_once, create_key, own_evloop, own_cthread, set_current, evloop_get, current,
}
use cthread.Keys.Owners.{
  Owners, nobody, inits_loop, inits_main, sets_thread, after, Reached, at_start, performs,
  evloop_get-Reached,
}

-- the keys below `next` have been made
record Table : Type 0 where
  next : ℕ
  at : ℕ → ℕ → ℕ

abbrev empty : Table
empty = record { next = 0; at = λ t k. 0 }

abbrev grown : Table → Table
grown s = record { next = suc s.next; at = λ t k. if k == s.next then 0 else s.at t k }

abbrev made_key : Option (ℕ × Table) → ℕ
made_key none = 0
made_key (some (k, g)) = k

abbrev made_table : Option (ℕ × Table) → Table
made_table none = empty
made_table (some (k, g)) = g

abbrev below : Table → ℕ → Bool
below s k = ltb k s.next

abbrev counted : Pthreads
counted = record {
  Control = Bool;
  Values = Table;
  once_init = false;
  enter = λ c. (not c, true);
  enter-first = refl;
  enter-later = λ c. refl;
  is_key = λ s k. below s k;
  create = λ s.
      some (s.next, record { next = suc s.next; at = λ t k. if k == s.next then 0 else s.at t k });
  get = λ s t k. s.at t k;
  set = λ s t k x. record s { at = λ u j. if (t == u) && (k == j) then x else s.at u j };
  create-key = λ s g k made.
      rw (← ap made_key made, ← ap made_table made)
        (ground arith, ground arith, λ j h. ground arith);
  create-get = λ s g k made.
      rw (← ap made_key made, ← ap made_table made) (λ t. ground arith, λ t j h. ground arith);
  set-same = λ s t k x h. ground arith;
  set-other = λ s t k x u j ne. ground arith;
  set-key = λ s t k x j. refl;
}

abbrev nothing_made : Keys counted
nothing_made = record {
  values = empty;
  evloop = record { once = false; key = 7 };
  cthread = record { once = false; key = 7 };
}

abbrev or_nothing : Run (Keys counted) → Keys counted
or_nothing (ok s) = s
or_nothing fault = nothing_made
or_nothing abort = nothing_made

-- thread 1 has the loop at 500, and its thread at 900 is current; thread 2 has the loop at 600
abbrev first_loop : Keys counted
first_loop = or_nothing (own_evloop counted 1 500 nothing_made)

abbrev main_ready : Keys counted
main_ready = or_nothing (own_cthread counted first_loop)

abbrev running : Keys counted
running = set_current counted 1 900 main_ready

abbrev second_loop : Keys counted
second_loop = or_nothing (own_evloop counted 2 600 running)

abbrev owners : Owners
owners =
    after (inits_loop 2 600)
      (after (sets_thread 1 900) (after inits_main (after (inits_loop 1 500) nobody)))

second_loop-Reached : Reached counted nothing_made second_loop owners
unfolding own_evloop own_cthread key_once create_key set_current
second_loop-Reached =
    performs
      (performs (performs (performs at_start (inits_loop 1 500) tt refl) inits_main tt refl)
        (sets_thread 1 900) refl refl)
      (inits_loop 2 600) tt refl

evloop_get-Reached_example :
    (evloop_get counted 2 second_loop ≡ 600) × (current counted 2 second_loop ≡ 0)
evloop_get-Reached_example =
    evloop_get-Reached counted nothing_made refl refl second_loop owners second_loop-Reached refl
      refl 2
