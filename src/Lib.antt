-- ===== src/Lib.antt =====
-- A verification library for cthread: cooperative threads on x86-64, and an event loop with timers
-- and file descriptors, in C.
--
-- A program keeps a `struct evloop` and calls evloop_step in a loop: it fires the timers that are
-- due, tells the kernel what changed about the descriptors, and waits. The functions that it calls
-- resume threads, which run until they yield.
--
-- * Heap (heap.c, heap.h): the binary heap of time stamps modulo 2^32. `Heap` is
--   `struct heap_mod32`; the entries are a function from indices, of which `cap` may be accessed, and the
--   nodes' back pointers are a function from addresses. Each operation has the C function's name;
--   a loop takes fuel, `idx + 1` rounds for heap_bubble_up, which halves its index, and `size + 1`
--   rounds for heap_bubble_down, which doubles it. A heap has fewer than 2^30 items, and
--   heap_insert asks for room for nine more, so that no index and no capacity leaves an int.
-- * Timers (evloop.c): ev_timeout, ev_alarm, ev_stop and ev_step_timers over `Loop`, which is
--   `struct evloop`. What the timers' functions do is a parameter, with the contract `Behaves`, or
--   `Contract` where the program keeps an invariant between their calls; `Fired` says which timers
--   are fired, and in which order. The fuel of `fire_loop` exceeds the number of due timers, and
--   each round has fewer.
-- * Poll (evloop.epoll.c): ev_watch, ev_unwatch, ev_close and the loop of evloop_step over the
--   dirty list. `Polls` holds the polls by address. khash.h is the parameter `KHash`, and epoll(7)
--   the parameter `Epoll`. The fuel of `flush_loop` exceeds the length of the dirty list. `Step`
--   has evloop_step, with the answers of epoll_wait and the time as arguments, evloop_init and
--   evloop_destroy, whose loop takes as many rounds as the table has entries; `Branches` puts the
--   loop and the timers together. `Deliver` is the order in which the events call the functions of
--   watches. `Op` sees the operations as changes of a map from the sides of the descriptors to the
--   watches, `Follows` is what ties the map, the polls and the kernel, and `Reach` has the states that
--   a program reaches by any sequence of operations; `Stale` and `Leftover` are about watches that
--   have been taken off. The source ignores the result of epoll_ctl, and
--   `Epoll` takes each call to succeed: a call that fails (EPERM, ENOMEM) is not covered.
-- * Atomics (cthread-atomics.h): the stand-ins for atomic operations, by the range of their type;
--   `Types` has the types, which CT_GENERIC takes to functions, and `Generic` the macros.
-- * Tls (tls.c): create_tls_key under any schedule of threads, by single accesses to the shared
--   variables.
-- * Keys (evloop.epoll.c, cthread.c): the keys of pthread that hold the event loop and the current
--   thread of each thread of the system. POSIX threads are the parameter `Pthreads`. Elsewhere the
--   loop is an argument, and the current thread a member of the state.
-- * Threads (cthread.c, cthread-impl.h, cthread.sysv64.s): the registers, the words of the stacks
--   and the structures of the threads; `Call` has the C functions, each up to the state in which
--   the next thread goes on. malloc and its kin are parameters; `Request` has the allocators.
--   `Running` and `Refine` see the operations as moves on the stack of running threads, `Census`
--   counts the threads, and `Reach` has the states that a program reaches by any sequence of
--   operations. A stack is taken to lie apart from the structures of all other threads, which the
--   source does not check; and `num_threads`, an int, is an unbounded integer, so that a program
--   with 2^31 live threads, where it would overflow, is not covered.
-- * Sleep (cthread-evloop.c, cthread-evloop.h, ct_thrd_sleep, do_sleep of main.c): threads that
--   wait for a timer, over the threads and the timers together; `Steps` has ev_step_timers with
--   timer_wakeup as the function of the timers, and what the woken threads do as a parameter; `Woken`
--   is the trace of the threads that it wakes.
-- * Watcher (cthread-evloop.c, cthread-evloop.h): threads that wait for a descriptor.
-- * Thrd (cthread-c11threads.h, main.c): the interface of the C standard for threads, and the
--   functions of the demo program. A function that is interrupted by a switch is two definitions.
-- * Overlapped (evloop.windows.c, evloop.windows.h): reads and writes on Windows. ReadFile and
--   WriteFile are the parameter `Files`.
--
-- `Run` is the result of a C call: a value, abort(), or a fault, which is undefined behaviour, a
-- failed assertion, or fuel that has run out. Base, Word and Run are the shared helpers; Tests
-- holds concrete runs.
--
-- Not modelled: khash.h, which is third-party code; the other branches for Windows; the epoll
-- descriptor and the signal stack, which are objects of the system; tls_get and tls_set, which
-- pass on a call of the system; cthread_send, which has no body, and cthread_cancel of
-- cthread-evloop.c, which calls a function that is declared nowhere; ct_thrd_detach, which is no
-- C; and main's loop over evloop_step.
pub mod Base
pub mod Word
pub mod Run
pub mod Heap
pub mod Timers
pub mod Poll
pub mod Threads
pub mod Tls
pub mod Keys
pub mod Sleep
pub mod Watcher
pub mod Thrd
pub mod Overlapped
pub mod Atomics
pub mod Tests
