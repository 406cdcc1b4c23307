-- ===== src/Tests/Heap.antt =====
-- heap.c at small inputs, and its theorems there.
use cthread.Base.{ℕ, ◌<◌, ◌≡◌, refl, some, arith, ◌==◌, if◌then◌else◌, Option}
use cthread.Run.{Run, ok, Returns, ◌>>=◌}
use cthread.Word.{sub32}
use cthread.Heap.{Entry, Heap, Allocator, heap_insert, heap_remove}
use cthread.Heap.Links.{lookup}
use cthread.Heap.Order.{IsQueue}
use cthread.Heap.Insert.{Inserted, heap_insert_lem}
use cthread.Heap.Remove.{Removed, heap_remove_lem}

abbrev pub entry : ℕ → ℕ → Entry
entry x n = record { value = x; node = n }

-- a `realloc` that never moves the array
pub steady-keeps :
    (v w : ℕ → Entry) (old new i : ℕ) → some v ≡ some w → i < old → i < new → w i ≡ v i
steady-keeps v w old new i e p q = ground arith

abbrev pub steady : Allocator
steady = record { realloc = λ v old new. some v; keeps = steady-keeps }

abbrev pub empty : Heap
empty = record { v = λ i. entry 0 0; size = 0; cap = 0; index = λ n. 0 }

-- nodes 10, 20 and 30 with the times 100, 200 and 150
abbrev pub sample : Heap
sample = record {
  v = λ i. if i == 1 then entry 100 10 else if i == 2 then entry 200 20 else entry 150 30;
  size = 3;
  cap = 16;
  index = λ n. if n == 10 then 1 else if n == 20 then 2 else if n == 30 then 3 else 0;
}

pub sample-IsQueue : IsQueue 0 sample
unfolding lookup sub32
sample-IsQueue = record {
  links = record { room = omega arith; small = omega arith; linked = λ i p s. ground arith };
  order = λ c p s. ground arith;
  window = λ n x e. ground arith;
}

abbrev found : ℕ → Run Heap → Run (Option ℕ × ℕ)
found n r = r >>= λ h. ok (lookup h n, (h.v 1).value)

-- times that wrap around zero
inserts :
    (heap_insert steady empty 10 5 >>= λ h.
    heap_insert steady h 20 4294967290 >>= λ h. found 10 (heap_remove h 1))
    ≡ ok (some 5, 5)
unfolding heap_insert heap_remove lookup sub32
inserts = refl

heap_insert_lem_example : Returns (Inserted 0 sample 40 120) (heap_insert steady sample 40 120)
unfolding lookup sub32
heap_insert_lem_example =
    heap_insert_lem steady 40 120 sample-IsQueue refl (ground arith) (omega arith)
      (λ p. absurd (omega arith))

heap_remove_lem_example : Returns (Removed 0 sample 20) (heap_remove sample 2)
unfolding lookup sub32
heap_remove_lem_example =
    heap_remove_lem 2 sample-IsQueue (λ p q n x e. ground arith) (omega arith) (omega arith)
