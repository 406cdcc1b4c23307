-- ===== src/Tests/Thrd.antt =====
-- cthread-c11threads.h and main.c, with the threads of `two_threads`.
use cthread.Base.{ℕ, ◌+◌, ◌-◌, ◌≡◌, ◌≢◌, ◌⊎◌, refl, inl, inr, some, none, arith, update}
use cthread.Word.{negsuc}
use cthread.Run.{ok, fault, Returns}
use cthread.Threads.{
  null, State, thread_stack, push, cthread_asm_switch, push_registers, save_caller, store_stack,
  load_thread, load_main, switch_point,
}
use cthread.Threads.Call.{
  cthread_join, join_resumed, do_yield, yield_stack, Function, cthread_start, create_cthread,
  cthread_yield, place, zeroed,
}
use cthread.Threads.Start.{StartedFrom}
use cthread.Thrd.{
  ct_thrd_exit, ct_thrd_create, ct_thrd_created, ct_thrd_nomem, ct_thrd_success, stack_size,
  main_second, join_func,
}
use cthread.Thrd.Create.{CanStart, ct_thrd_create_lem, ct_thrd_created-cthread_yield}
use cthread.Thrd.Demo.{join_func-main_second}
use cthread.Thrd.Exit.{join_resumed-ct_thrd_exit}
use cthread.Tests.Threads.{
  joins, ending, joining, worker_ends, snd_or, registers, one_main, worker, two_threads,
}

-- malloc, which returns an address and leaves the memory as it is
abbrev malloc_at : ℕ → Function
malloc_at p sz unused s = ok (p, record s { cpu = record (s.cpu) { rsp = s.cpu.rsp + 8 } })

-- the state of the first thread after a call of malloc
abbrev after_malloc : ℕ → ℕ → State
after_malloc self sp = record (two_threads self sp) { mem = update (λ a. 0) (sp - 8) 88 }

enough : CanStart 20000 (after_malloc 3000 2900)
enough = record {
  thread = worker;
  main = one_main;
  held = refl;
  other = λ e. absurd (omega arith);
  counted = refl;
  fits = record { fits = omega arith; room = omega arith; apart = inl (omega arith) };
}

ct_thrd_create_lem_example :
    Returns
      (λ (r, g).
        ((20000 ≡ null) × (r ≡ some ct_thrd_nomem) × (g ≡ after_malloc 3000 2900))
        ⊎ ((20000 ≢ null)
            × (r ≡ none)
            × StartedFrom 77 89 99 5 3000
                (place 20000 stack_size)
                enough.thread.main
                enough.main
                (thread_stack 3000)
                (after_malloc 3000 2900)
                g))
      (ct_thrd_create 77 88 89 (malloc_at 20000) 99 5 (two_threads 3000 2900))
unfolding push
ct_thrd_create_lem_example =
    ct_thrd_create_lem 77 88 89 (malloc_at 20000) 99 5 20000 (two_threads 3000 2900)
      (after_malloc 3000 2900) refl (λ e. enough)

abbrev creating : State
creating =
    snd_or (two_threads null 0)
      (ct_thrd_create 77 88 89 (malloc_at 20000) 99 5 (two_threads 3000 2900))

abbrev created_runs : State
created_runs = record creating { cpu = registers 23000 }

ct_thrd_created-cthread_yield_example :
    Returns
      (λ z.
        (z.self ≡ 3000)
        × ((ct_thrd_created 2950 z).0 ≡ ct_thrd_success)
        × ((ct_thrd_created 2950 z).1.mem 2950 ≡ 0))
      (cthread_yield 90 0 created_runs)
unfolding push ct_thrd_create cthread_start create_cthread cthread_asm_switch push_registers
    save_caller store_stack load_thread load_main switch_point
ct_thrd_created-cthread_yield_example =
    ct_thrd_created-cthread_yield 77 88 89 (malloc_at 20000) 99 5 20000 (two_threads 3000 2900)
      (after_malloc 3000 2900) refl (λ e. absurd (omega arith)) enough creating created_runs refl
      (record {
        current = record zeroed {
          stack = 23936;
          main = 500;
          yield_to = 3000;
          caller = record { stack = 2900; prev = 2940; return_address = 89 };
        };
        self = refl;
        held = refl;
        caller = refl;
        target = refl;
        kept = record {
          stack = refl;
          saved = λ x l h. refl;
          room = omega arith;
          apart = inr (omega arith);
        };
      })
      90 0 2950

-- main, to which the first thread has yielded NULL
abbrev main_goes_on : State
main_goes_on = record (two_threads null 10000) { cpu = record (registers 10000) { rax = null } }

abbrev main_after_malloc : State
main_after_malloc = record main_goes_on { mem = update (λ a. 0) 9992 88 }

join_func-main_second_example :
    Returns
      (λ g. (g.cpu.pc ≡ 66) × (join_func 91 g.cpu.rdi g ≡ fault))
      (main_second 77 88 89 (malloc_at 20000) 500 66 main_goes_on)
unfolding push
join_func-main_second_example =
    join_func-main_second 77 88 89 (malloc_at 20000) 500 66 20000 main_goes_on main_after_malloc
      refl refl
      (record {
        main = one_main;
        idle = refl;
        held = refl;
        fits = record { fits = omega arith; room = omega arith; apart = inl (omega arith) };
      })
      refl 91

-- the thread at 3000, which the one at 6000 has joined, ends with -3
join_resumed-ct_thrd_exit_example :
    Returns
      (λ z.
        (z.cpu ≡ record (registers 5900) {
          pc = 88;
          rax = ending.current.exit_data;
          rdi = ending.current.exit_data;
        })
        × (z.self ≡ 6000)
        × ((q : State) × (join_resumed 3000 z ≡ ok (negsuc 2, q))))
      (ct_thrd_exit 99 (negsuc 2) worker_ends)
unfolding cthread_join do_yield yield_stack cthread_asm_switch push push_registers save_caller
    store_stack load_thread load_main switch_point
join_resumed-ct_thrd_exit_example =
    join_resumed-ct_thrd_exit 88 3000 {s = two_threads 6000 5900} {a = joining} {g = worker_ends}
      (λ e. absurd (omega arith)) joins refl ending 99 (negsuc 2) (omega arith)
