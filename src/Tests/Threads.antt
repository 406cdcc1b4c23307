-- ===== src/Tests/Threads.antt =====
-- cthread.c on a main function at 10000 with one thread at 3000.
use cthread.Base.{ℕ, ◌+◌, ◌%◌, ◌≡◌, refl, inl, Option, none, some, arith, update}
use cthread.Word.{ℤ, pos, signed32, word_mod}
use cthread.Run.{Run, ok, fault, abort, Returns}
use cthread.Threads.{
  null, Cpu, Thread, Main, State, thread_stack, cthread_asm_switch, push, push_registers,
  save_caller, store_stack, load_thread, load_main, switch_point,
}
use cthread.Threads.Call.{
  Function, cthread_call, cthread_yield, cthread_start, cthread_exit, cthread_join, join_resumed,
  do_yield, yield_stack, zeroed,
}
use cthread.Threads.Yield.{cthread_yield-cthread_call}
use cthread.Threads.Start.{StartedFrom, cthread_start_lem}
use cthread.Threads.Join.{Joins, Ending, cthread_exit-cthread_join}
use cthread.Threads.Request.{callocs, allocate, Allocates, allocate_lem}
use cthread.Threads.Alloc.{on_stack}

abbrev pub registers : ℕ → Cpu
registers sp = record {
  rsp = sp;
  rbp = sp + 40;
  rbx = 1;
  r12 = 2;
  r13 = 3;
  r14 = 4;
  r15 = 5;
  rax = 6;
  rdi = 7;
  pc = 8;
}

abbrev pub one_main : Main
one_main = record { stack = 9000; num_threads = pos 1 }

abbrev pub worker : Thread
worker = record zeroed { stack = 2900; main = 500 }

abbrev pub other_worker : Thread
other_worker = record zeroed { stack = 5900; main = 500 }

-- two threads, at 3000 and at 6000
abbrev pub two_threads : ℕ → ℕ → State
two_threads self sp = record {
  cpu = registers sp;
  mem = λ a. 0;
  self = self;
  thread = update (update (λ a. none) 3000 (some worker)) 6000 (some other_worker);
  main = update (λ a. none) 500 (some one_main);
}

abbrev pub value_or : State → Run State → State
value_or d fault = d
value_or d abort = d
value_or d (ok s) = s

cthread_start_example :
    Returns
      (StartedFrom 77 88 99 5 3000 24000 500 one_main (thread_stack 3000) (two_threads 3000 2900))
      (cthread_start 77 88 99 5 20000 4096 (two_threads 3000 2900))
cthread_start_example =
    cthread_start_lem 77 88 99 5 20000 4096 one_main (two_threads 3000 2900) worker refl
      (λ e. absurd (omega arith)) refl (omega arith) (omega arith) (inl (omega arith))

abbrev called_worker : State
called_worker = value_or (two_threads null 10000) (cthread_call 88 3000 5 (two_threads null 10000))

abbrev worker_runs : State
worker_runs = record called_worker { cpu = registers 2800 }

cthread_yield_example :
    Returns
      (λ z. (z.cpu ≡ record (registers 10000) { pc = 88; rax = 6; rdi = 6 }) × (z.self ≡ null))
      (cthread_yield 99 6 worker_runs)
unfolding cthread_call cthread_asm_switch push push_registers save_caller store_stack load_thread
    load_main switch_point
cthread_yield_example =
    cthread_yield-cthread_call 88 3000 5 {s = two_threads null 10000} {a = called_worker}
      {g = worker_runs} {t = worker} refl (omega arith) (one_main, refl) refl
      (record {
        current = record worker {
          yield_to = null;
          caller = record { stack = 10000; prev = 10040; return_address = 88 };
        };
        self = refl;
        held = refl;
        caller = refl;
        target = refl;
        kept = record {
          stack = refl;
          saved = λ x l h. refl;
          room = omega arith;
          apart = inl (omega arith);
        };
      })
      99 6

-- the thread at 6000 joins the one at 3000
pub joins : Joins 3000 (two_threads 6000 5900)
joins = record {
  joined = worker;
  joiner = other_worker;
  load = 9000;
  runs = λ e. absurd (omega arith);
  other = λ e. absurd (omega arith);
  held = refl;
  unfinished = refl;
  current = refl;
  caller = refl;
  room = omega arith;
}

abbrev pub snd_or : State → Run (Option ℤ × State) → State
snd_or d fault = d
snd_or d abort = d
snd_or d (ok (x, s)) = s

abbrev pub joining : State
joining = snd_or (two_threads null 10000) (cthread_join 88 3000 (two_threads 6000 5900))

abbrev pub worker_ends : State
worker_ends = record joining { cpu = registers 2800; self = 3000 }

pub ending : Ending 3000 (two_threads 6000 5900) joining worker_ends
unfolding cthread_join do_yield yield_stack cthread_asm_switch push push_registers save_caller
    store_stack load_thread load_main switch_point
ending = record {
  current = record worker { exit_to = 6000 };
  main = one_main;
  self = refl;
  held = refl;
  unfinished = refl;
  counted = refl;
  joined = refl;
  kept = record {
    stack = refl;
    saved = λ x l h. refl;
    room = omega arith;
    apart = inl (omega arith);
  };
}

cthread_exit_example :
    Returns
      (λ z.
        (z.cpu ≡ record (registers 5900) {
          pc = 88;
          rax = ending.current.exit_data;
          rdi = ending.current.exit_data;
        })
        × (z.self ≡ 6000)
        × ((q : State) × (join_resumed 3000 z ≡ ok (signed32 (3 % word_mod), q))))
      (cthread_exit 99 3 worker_ends)
unfolding cthread_join do_yield yield_stack cthread_asm_switch push push_registers save_caller
    store_stack load_thread load_main switch_point
cthread_exit_example =
    cthread_exit-cthread_join 88 3000 {s = two_threads 6000 5900} {a = joining} {g = worker_ends}
      (λ e. absurd (omega arith)) joins refl ending 99 3

-- malloc, which returns and leaves the memory as it is
abbrev malloc : Function
malloc sz unused s = ok (7000, record s { cpu = record (s.cpu) { rsp = s.cpu.rsp + 8 } })

abbrev malloc_ends : State
malloc_ends =
    let e = on_stack 66 88 9000 (two_threads 3000 2900) in
    record e { cpu = record (e.cpu) { rsp = e.cpu.rsp + 8 } }

allocate_lem_example :
    Allocates
      (two_threads 3000 2900)
      7000
      malloc_ends
      (allocate 66 88 malloc (callocs 3 24) (two_threads 3000 2900))
allocate_lem_example =
    allocate_lem 66 88 malloc (callocs 3 24) (two_threads 3000 2900) worker one_main
      (λ e. absurd (omega arith)) refl refl (omega arith) (omega arith) 7000 malloc_ends refl
      (record { rsp = refl; mem = λ a h. refl })
