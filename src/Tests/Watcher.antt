-- ===== src/Tests/Watcher.antt =====
-- cthread-evloop.c: the first thread of `two_threads` waits for a descriptor.
use cthread.Base.{◌≡◌, refl, inr, arith, update}
use cthread.Run.{Returns}
use cthread.Threads.{
  null, push, cthread_asm_switch, push_registers, save_caller, store_stack, load_thread, load_main,
  switch_point,
}
use cthread.Threads.Call.{cthread_yield, do_yield, yield_stack}
use cthread.Watcher.{Watching, cthread_recv, fd_wakeup}
use cthread.Watcher.Wake.{fd_wakeup-cthread_recv}
use cthread.Tests.Threads.{registers, one_main, worker, two_threads}
use cthread.Tests.Running.{yielded, main_calls}

abbrev receiving : Watching
receiving = record {
  threads = two_threads 3000 2900;
  watch_fn = λ w. null;
  watch_thread = λ w. null;
  watch_arg = λ w. 9;
}

abbrev ready : Watching
ready = record receiving { threads = main_calls; watch_thread = update (λ w. null) 40 3000 }

fd_wakeup-cthread_recv_example :
    ((cthread_recv 5 40 receiving).watch_fn 40 ≡ 5)
    × Returns
        (λ z.
          (z.threads.cpu ≡ record (registers 2900) { pc = 88; rax = 9; rdi = 9 })
          × (z.threads.self ≡ 3000))
        (fd_wakeup 99 40 ready)
unfolding cthread_recv cthread_yield do_yield yield_stack cthread_asm_switch push push_registers
    save_caller store_stack load_thread load_main switch_point
fd_wakeup-cthread_recv_example =
    fd_wakeup-cthread_recv 5 40 88 6 9000 receiving worker yielded ready refl refl (omega arith)
      refl refl
      (record {
        thread = record worker { stack = 2844 };
        held = refl;
        slot = (one_main, refl);
        kept = record {
          stack = refl;
          saved = λ x l h. refl;
          room = omega arith;
          apart = inr (omega arith);
        };
      })
      99
