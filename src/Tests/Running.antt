-- ===== src/Tests/Running.antt =====
-- cthread.c: the stack of running threads, and what the starts return, with the threads of
-- `two_threads`.
use cthread.Base.{ℕ, ◌≡◌, refl, inl, inr, [], ◌∷◌, none, some, arith, ◌==◌, Bool-cases}
use cthread.Run.{Returns}
use cthread.Threads.{
  null, Main, State, cthread_asm_switch, push, push_registers, save_caller, store_stack,
  load_thread, load_main, switch_point,
}
use cthread.Threads.Call.{
  cthread_main_init, cthread_call, do_yield, yield_stack, cthread_yield, cthread_main_start,
  create_cthread, zeroed,
}
use cthread.Threads.Result.{Fits, cthread_yield-cthread_main_start}
use cthread.Threads.Running.{main_of, nil, cons, Running}
use cthread.Threads.Op.{calls, main_starts, perform}
use cthread.Threads.Refine.{perform-Running}
use cthread.Threads.Reach.{Reached, from_main, performs, Reached-Census}
use cthread.Threads.Census.{Census}
use cthread.Threads.Resume.{cthread_call-cthread_yield}
use cthread.Word.{pos}
use cthread.Tests.Threads.{registers, one_main, worker, other_worker, two_threads, value_or}

-- the first thread runs
pub rooted_example :
    (a m : ℕ)
    → main_of ((two_threads 3000 2900).thread a) ≡ some m
    → (x : Main) × ((two_threads 3000 2900).main m ≡ some x)
rooted_example a m h = elim (Bool-cases (m == 500)) [
  | inl here ↦ (one_main, ground arith)
  | inr other ↦ absurd (ground arith)
]

first_runs-Running : Running (two_threads 3000 2900) (3000 ∷ [])
first_runs-Running = record {
  line = cons (λ e. absurd (omega arith)) refl refl nil;
  null_free = refl;
  rooted = rooted_example;
}

perform-Running_example :
    Returns
      (λ g. Running g (6000 ∷ 3000 ∷ []))
      (perform 77 88 (calls 6000 5) (two_threads 3000 2900))
perform-Running_example =
    perform-Running 77 88 (calls 6000 5) (two_threads 3000 2900) (3000 ∷ []) first_runs-Running
      (omega arith) (other_worker, refl, refl)

main_stack-Fits : Fits 20000 4096 (two_threads null 10000)
main_stack-Fits = record { fits = omega arith; room = omega arith; apart = inl (omega arith) }

abbrev main_waits : State
main_waits =
    value_or (two_threads null 0)
      (cthread_main_start 77 88 500 99 5 20000 4096 (two_threads null 10000))

abbrev first_runs : State
first_runs = record main_waits { cpu = registers 23000 }

cthread_yield-cthread_main_start_example :
    Returns
      (λ z. (z.cpu ≡ record (registers 10000) { pc = 88; rax = 0; rdi = 0 }) × (z.self ≡ null))
      (cthread_yield 99 0 first_runs)
unfolding cthread_main_start create_cthread cthread_asm_switch push push_registers save_caller
    store_stack load_thread load_main switch_point
cthread_yield-cthread_main_start_example =
    cthread_yield-cthread_main_start 77 88 99 5 20000 4096 one_main {s = two_threads null 10000}
      {a = main_waits} {g = first_runs} main_stack-Fits 500 refl refl refl
      (record {
        current = record zeroed {
          stack = 23936;
          main = 500;
          caller = record { stack = 10000; prev = 10040; return_address = 88 };
        };
        self = refl;
        held = refl;
        caller = refl;
        target = refl;
        kept = record {
          stack = refl;
          saved = λ x l h. refl;
          room = omega arith;
          apart = inr (omega arith);
        };
      })
      99 0

-- main starts a thread, which then yields
abbrev before : State
before = record (two_threads null 10000) { thread = λ a. none; main = λ a. none }

abbrev at_first : State
at_first = cthread_main_init 500 before

abbrev one_started : State
one_started = value_or at_first (perform 77 88 (main_starts 500 99 5 20000 4096) at_first)

first_stack-Fits : Fits 20000 4096 at_first
unfolding cthread_main_init
first_stack-Fits = record { fits = omega arith; room = omega arith; apart = inl (omega arith) }

one-Reached : Reached 77 500 at_first one_started (24000 ∷ []) (24000 ∷ [])
unfolding cthread_main_init cthread_main_start create_cthread cthread_asm_switch push push_registers
    save_caller store_stack load_thread load_main switch_point
one-Reached =
    performs {s = at_first} from_main 88 (main_starts 500 99 5 20000 4096) (omega arith)
      (refl, (record one_main { stack = null; num_threads = pos 0 }, refl), first_stack-Fits, refl)
      refl

Reached-Census_example : Running one_started (24000 ∷ []) × Census one_started 500 (24000 ∷ [])
Reached-Census_example =
    Reached-Census 77 500 before refl (λ a. refl) one_started (24000 ∷ []) (24000 ∷ []) one-Reached

-- the first thread yields and is called again by main
abbrev pub yielded : State
yielded = value_or (two_threads null 0) (cthread_yield 88 6 (two_threads 3000 2900))

abbrev pub main_calls : State
main_calls = record yielded { cpu = registers 10000 }

cthread_call-cthread_yield_example :
    Returns
      (λ z. (z.cpu ≡ record (registers 2900) { pc = 88; rax = 9; rdi = 9 }) × (z.self ≡ 3000))
      (cthread_call 99 3000 9 main_calls)
unfolding cthread_yield do_yield yield_stack cthread_asm_switch push push_registers save_caller
    store_stack load_thread load_main switch_point
cthread_call-cthread_yield_example =
    cthread_call-cthread_yield 88 6 9000 {s = two_threads 3000 2900} {a = yielded} {g = main_calls}
      worker refl refl (omega arith) refl
      (record {
        thread = record worker { stack = 2844 };
        held = refl;
        slot = (one_main, refl);
        kept = record {
          stack = refl;
          saved = λ x l h. refl;
          room = omega arith;
          apart = inr (omega arith);
        };
      })
      99 9
