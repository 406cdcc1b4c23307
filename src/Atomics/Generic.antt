-- ===== src/Atomics/Generic.antt =====
-- cthread-atomics.h: the macros over the types. The explicit ones ignore the memory order.
use cthread.Base.{ℕ, ◌≡◌, Bool}
use cthread.Run.{Run, ok}
use cthread.Atomics.{
  Shape, Adds, total, ct_init, ct_load, ct_store, ct_compare_exchange, ct_exchange, ct_fetch_add,
  ct_fetch_sub, ct_fetch_or, ct_fetch_xor, ct_fetch_and, ct_fetch_sub-ct_fetch_add,
  ct_atomic_flag_test_and_set, ct_atomic_flag_clear,
}
use cthread.Atomics.Types.{CType, shape}
use cthread.Atomics.Choice.{generic, instance_of, instance_of-generic}

-- `enum ct_memory_order`, which names `consume` twice and has no `release`
pub data MemoryOrder : Type 0 where
  ct_memory_order_relaxed : MemoryOrder
  ct_memory_order_consume : MemoryOrder
  ct_memory_order_acquire : MemoryOrder
  ct_memory_order_acq_rel : MemoryOrder
  ct_memory_order_seq_cst : MemoryOrder

-- the range of the functions that CT_GENERIC picks
abbrev pub picked : CType → Shape
picked t = shape (instance_of (generic t))

-- The functions that only copy and compare bits are the same for all types.
unfoldable pub ct_atomic_init : CType → ℕ → ℕ → ℕ
ct_atomic_init t p v = ct_init p v

unfoldable pub ct_atomic_store : CType → ℕ → ℕ → ℕ
ct_atomic_store t p v = ct_store p v

unfoldable pub ct_atomic_load : CType → ℕ → ℕ
ct_atomic_load t p = ct_load p

unfoldable pub ct_atomic_exchange : CType → ℕ → ℕ → ℕ × ℕ
ct_atomic_exchange t p v = ct_exchange p v

unfoldable pub ct_atomic_compare_exchange_strong : CType → ℕ → ℕ → ℕ → Bool × ℕ × ℕ
ct_atomic_compare_exchange_strong t p exp v = ct_compare_exchange p exp v

unfoldable pub ct_atomic_fetch_add : CType → ℕ → ℕ → Run (ℕ × ℕ)
ct_atomic_fetch_add t p v = ct_fetch_add (picked t) p v

unfoldable pub ct_atomic_fetch_sub : CType → ℕ → ℕ → Run (ℕ × ℕ)
ct_atomic_fetch_sub t p v = ct_fetch_sub (picked t) p v

unfoldable pub ct_atomic_fetch_or : CType → ℕ → ℕ → Run (ℕ × ℕ)
ct_atomic_fetch_or t p v = ct_fetch_or (picked t) p v

unfoldable pub ct_atomic_fetch_xor : CType → ℕ → ℕ → Run (ℕ × ℕ)
ct_atomic_fetch_xor t p v = ct_fetch_xor (picked t) p v

unfoldable pub ct_atomic_fetch_and : CType → ℕ → ℕ → Run (ℕ × ℕ)
ct_atomic_fetch_and t p v = ct_fetch_and (picked t) p v

unfoldable pub ct_atomic_load_explicit : CType → ℕ → MemoryOrder → ℕ
ct_atomic_load_explicit t p m = ct_atomic_load t p

unfoldable pub ct_atomic_store_explicit : CType → ℕ → ℕ → MemoryOrder → ℕ
ct_atomic_store_explicit t p v m = ct_atomic_store t p v

unfoldable pub ct_atomic_exchange_explicit : CType → ℕ → ℕ → MemoryOrder → ℕ × ℕ
ct_atomic_exchange_explicit t p v m = ct_atomic_exchange t p v

unfoldable pub ct_atomic_compare_exchange_weak : CType → ℕ → ℕ → ℕ → Bool × ℕ × ℕ
ct_atomic_compare_exchange_weak t p exp v = ct_atomic_compare_exchange_strong t p exp v

unfoldable pub ct_atomic_compare_exchange_weak_explicit :
    CType → ℕ → ℕ → ℕ → MemoryOrder → MemoryOrder → Bool × ℕ × ℕ
ct_atomic_compare_exchange_weak_explicit t p exp v ms mf =
    ct_atomic_compare_exchange_strong t p exp v

unfoldable pub ct_atomic_compare_exchange_strong_explicit :
    CType → ℕ → ℕ → ℕ → MemoryOrder → MemoryOrder → Bool × ℕ × ℕ
ct_atomic_compare_exchange_strong_explicit t p exp v ms mf =
    ct_atomic_compare_exchange_strong t p exp v

unfoldable pub ct_atomic_fetch_add_explicit : CType → ℕ → ℕ → MemoryOrder → Run (ℕ × ℕ)
ct_atomic_fetch_add_explicit t p v m = ct_atomic_fetch_add t p v

unfoldable pub ct_atomic_fetch_sub_explicit : CType → ℕ → ℕ → MemoryOrder → Run (ℕ × ℕ)
ct_atomic_fetch_sub_explicit t p v m = ct_atomic_fetch_sub t p v

unfoldable pub ct_atomic_fetch_or_explicit : CType → ℕ → ℕ → MemoryOrder → Run (ℕ × ℕ)
ct_atomic_fetch_or_explicit t p v m = ct_atomic_fetch_or t p v

unfoldable pub ct_atomic_fetch_xor_explicit : CType → ℕ → ℕ → MemoryOrder → Run (ℕ × ℕ)
ct_atomic_fetch_xor_explicit t p v m = ct_atomic_fetch_xor t p v

unfoldable pub ct_atomic_fetch_and_explicit : CType → ℕ → ℕ → MemoryOrder → Run (ℕ × ℕ)
ct_atomic_fetch_and_explicit t p v m = ct_atomic_fetch_and t p v

unfoldable pub ct_atomic_flag_test_and_set_explicit : Bool → MemoryOrder → Bool × Bool
ct_atomic_flag_test_and_set_explicit p m = ct_atomic_flag_test_and_set p

unfoldable pub ct_atomic_flag_clear_explicit : Bool → MemoryOrder → Bool
ct_atomic_flag_clear_explicit p m = ct_atomic_flag_clear p

-- For every type but _Bool and `void *`, and values in its range whose sum does not overflow `int` or a
-- longer signed type, what ct_atomic_fetch_add_explicit adds, with any memory order,
-- ct_atomic_fetch_sub takes away again: each returns the value before it, and the value between is the
-- sum modulo the range of the type that the macro is used with.
pub ct_atomic_fetch_sub-ct_atomic_fetch_add :
    (t : CType) (p v : ℕ) (m : MemoryOrder)
    → Adds (shape t) p v
    → (ct_atomic_fetch_add_explicit t p v m ≡ ok (p, total (shape t) p v))
      × (ct_atomic_fetch_sub t (total (shape t) p v) v ≡ ok (total (shape t) p v, p))
unfolding ct_atomic_fetch_add_explicit ct_atomic_fetch_add ct_atomic_fetch_sub
ct_atomic_fetch_sub-ct_atomic_fetch_add t p v m h =
    rw (instance_of-generic t) (ct_fetch_sub-ct_fetch_add (shape t) p v h)
