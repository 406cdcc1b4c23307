-- ===== src/Tests.antt =====
mod Heap
mod Timers
mod Threads
mod Running
mod Poll
mod Branches
mod Reach
mod Atomics
mod Tls
mod Keys
mod Table
mod Overlapped
mod Thrd
mod Sleep
mod Watcher
mod Steps
