-- ===== src/Tests/Atomics.antt =====
-- cthread-atomics.h at small inputs.
use cthread.Base.{◌+◌, ◌-◌, ◌^◌, ◌≡◌, refl, arith}
use cthread.Run.{ok, fault}
use cthread.Atomics.{ct_fetch_add, sum, signed}
use cthread.Atomics.Types.{int_least16_t}
use cthread.Atomics.Generic.{
  ct_memory_order_relaxed, ct_atomic_fetch_add_explicit, ct_atomic_fetch_sub,
  ct_atomic_fetch_sub-ct_atomic_fetch_add,
}

-- the largest value of a 16-bit type and 3
ct_atomic_fetch_sub_example :
    (ct_atomic_fetch_add_explicit int_least16_t (2 ^ 15 - 1) 3 ct_memory_order_relaxed
      ≡ ok (2 ^ 15 - 1, 2 ^ 15 + 2))
    × (ct_atomic_fetch_sub int_least16_t (2 ^ 15 + 2) 3 ≡ ok (2 ^ 15 + 2, 2 ^ 15 - 1))
ct_atomic_fetch_sub_example =
    ct_atomic_fetch_sub-ct_atomic_fetch_add int_least16_t (2 ^ 15 - 1) 3 ct_memory_order_relaxed
      (omega arith, omega arith, refl)

-- the largest int and 1
int_overflows : ct_fetch_add (signed 32) (2 ^ 31 - 1) 1 ≡ fault
unfolding ct_fetch_add sum
int_overflows = refl
