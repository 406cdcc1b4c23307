-- ===== src/Thrd/Exit.antt =====
-- cthread-c11threads.h: ct_thrd_exit, and the join of the thread that has called it.
use cthread.Base.{ℕ, ◌+◌, ◌-◌, ◌%◌, ◌^◌, ◌<◌, ◌≡◌, ◌≢◌, ◌∙◌, ap, none, arith}
use cthread.Word.{ℤ, pos, negsuc, signed32, word_mod}
use cthread.Run.{ok, Returns, Returns-map}
use cthread.Threads.{State, null}
use cthread.Threads.Call.{cthread_join, join_resumed}
use cthread.Threads.Join.{Joins, Ending, cthread_exit-cthread_join}
use cthread.Thrd.{to_pointer, ct_thrd_exit}

-- an int
abbrev pub IsInt : ℤ → Type 0
IsInt (pos n) = n < 2 ^ 31
IsInt (negsuc n) = n < 2 ^ 31

signed32-to_pointer : (z : ℤ) → IsInt z → signed32 (to_pointer z % word_mod) ≡ z
unfolding signed32
signed32-to_pointer (pos n) h = ground arith
signed32-to_pointer (negsuc n) h =
    let low : (2 ^ 64 - (n + 1)) % word_mod ≡ 2 ^ 32 - (n + 1) = omega arith in
    rw low (ground arith)

-- Let a thread join another one that has not ended, and let that one end by ct_thrd_exit with any int
-- while the first one's stack is as the join left it. The thread that joined goes on inside the join,
-- with its stack pointer and preserved registers, and the join returns that int, a negative one too.
pub join_resumed-ct_thrd_exit :
    (back t : ℕ) {s a g : State}
    → t ≢ null
    → (j : Joins t s) → cthread_join back t s ≡ ok (none, a)
    → (e : Ending t s a g) → (back2 : ℕ) (code : ℤ) → IsInt code
    → Returns
        (λ z.
          (z.cpu
            ≡ record (s.cpu) { pc = back; rax = e.current.exit_data; rdi = e.current.exit_data })
          × (z.self ≡ s.self)
          × ((q : State) × (join_resumed t z ≡ ok (code, q))))
        (ct_thrd_exit back2 code g)
unfolding ct_thrd_exit
join_resumed-ct_thrd_exit back t nz j call e back2 code int =
    Returns-map (cthread_exit-cthread_join back t nz j call e back2 (to_pointer code))
      λ z (cpu, self, (q, value)).
        (cpu, self, (q, value ∙ ap (λ v. ok (v, q)) (signed32-to_pointer code int)))
