-- ===== src/Heap.antt =====
-- heap.c and heap.h: a binary heap of time stamps, from index 1, in which each node knows its index.
-- `Heap` is `struct heap_mod32`, with the array `v` as a function that is read and written below
-- `cap` only, together with the field `index` of the nodes at all addresses.
-- An `int` is a number; where C would overflow, `checked` is a fault.
pub mod Links
pub mod Count
pub mod Order
pub mod Up
pub mod Down
pub mod Edit
pub mod Insert
pub mod Rise
pub mod Remove
use cthread.Base.{
  ℕ, zero, suc, ◌+◌, ◌-◌, ◌*◌, ◌/◌, ◌^◌, ◌<◌, ◌≡◌, Bool, true, false, ◌&&◌, ◌||◌, not, Option, none,
  some, ltb, leb, ◌==◌, if◌then◌else◌, update,
}
use cthread.Word.{sub32, is_negative32}
use cthread.Run.{Run, ok, abort, fault, ◌>>=◌, ◌>>◌, assert}

pub record Entry : Type 0 where
  pub value : ℕ
  pub node : ℕ

pub record Heap : Type 0 where
  pub v : ℕ → Entry
  pub size : ℕ
  pub cap : ℕ
  pub index : ℕ → ℕ

abbrev pub heap_invalid : ℕ
heap_invalid = 0

abbrev pub heap_head : ℕ
heap_head = 1

-- the result of an `int` operation, which must be in range
abbrev pub checked : ℕ → Run ℕ
checked n = if ltb n (2 ^ 31) then ok n else fault

-- `h->v[i]`
unfoldable pub load : Heap → ℕ → Run Entry
load h i = if ltb i h.cap then ok (h.v i) else fault

-- `h->v[i] = e`
unfoldable pub store : Heap → ℕ → Entry → Run Heap
store h i e = if ltb i h.cap then ok (record h { v = update h.v i e }) else fault

-- `n->index = i`
abbrev pub set_index : Heap → ℕ → ℕ → Heap
set_index h n i = record h { index = update h.index n i }

abbrev pub heap_parent : ℕ → ℕ
heap_parent idx = idx / 2

abbrev pub heap_left : ℕ → Run ℕ
heap_left idx = checked (2 * idx)

unfoldable pub heap_less : Heap → ℕ → ℕ → Run Bool
unfolding load is_negative32
heap_less h a b = do x ← load h a; y ← load h b; ok (is_negative32 (sub32 x.value y.value))

unfoldable pub heap_swap : Heap → ℕ → ℕ → Run Heap
unfolding load store
heap_swap h a b = do
  assert (ltb 0 a && leb a h.size && ltb 0 b && leb b h.size)
  ae ← load h a
  be ← load h b
  h ← store (set_index (set_index h ae.node b) be.node a) a be
  store h b ae

-- the `for` of heap_bubble_up, with fuel
unfoldable pub bubble_up_loop : ℕ → Heap → ℕ → Run Heap
bubble_up_loop zero h idx = fault
bubble_up_loop (suc k) h idx =
    let parent = heap_parent idx in
    let rise = heap_swap h idx parent >>= λ h. bubble_up_loop k h parent in
    let step = heap_less h idx parent >>= λ less. if less then rise else ok h in
    if parent == 0 then ok h else step

unfoldable pub heap_bubble_up : Heap → ℕ → ℕ → Run Heap
unfolding bubble_up_loop heap_less heap_swap load store
heap_bubble_up h idx value = do
  e ← load h idx
  h ← store h idx (record e { value = value })
  bubble_up_loop (idx + 1) h idx

-- the child that heap_bubble_down compares with the parent; `left` is in the heap
unfoldable pub smaller_child : Heap → ℕ → Run ℕ
unfolding heap_less
smaller_child h left = do
  right ← checked (left + 1)
  let pick = do less ← heap_less h right left; ok (if less then right else left)
  if leb right h.size then pick else ok left

-- the `for` of heap_bubble_down, with fuel
unfoldable pub bubble_down_loop : ℕ → Heap → ℕ → Run Heap
bubble_down_loop zero h parent = fault
bubble_down_loop (suc k) h parent =
    let step : ℕ → Run Heap = λ left. do
      smaller ← smaller_child h left
      less ← heap_less h smaller parent
      let sink = heap_swap h smaller parent >>= λ h. bubble_down_loop k h smaller
      if less then sink else ok h
    in heap_left parent >>= λ left. if ltb h.size left then ok h else step left

unfoldable pub heap_bubble_down : Heap → Run Heap
unfolding bubble_down_loop smaller_child heap_less heap_swap load store
heap_bubble_down h = bubble_down_loop (h.size + 1) h heap_head

-- What `xrealloc` does with the entries: `realloc` of the C library, given the array and its old
-- and new length, returns an array that starts with the old entries, or NULL.
pub record Allocator : Type 0 where
  pub realloc : (ℕ → Entry) → ℕ → ℕ → Option (ℕ → Entry)
  pub keeps :
      (v w : ℕ → Entry) (old new i : ℕ) → realloc v old new ≡ some w → i < old → i < new → w i ≡ v i

unfoldable pub xrealloc : Allocator → (ℕ → Entry) → ℕ → ℕ → Run (ℕ → Entry)
xrealloc a v old new = elim (a.realloc v old new) [ none ↦ abort | some w ↦ ok w ]

-- the first statement of heap_insert
unfoldable pub grow : Allocator → Heap → Run Heap
unfolding xrealloc
grow a h =
    let larger : Run Heap = do
      cap ← checked (h.cap * 2 + 16)
      v ← xrealloc a h.v h.cap cap
      ok (record h { v = v; cap = cap })
    in if leb h.cap (heap_head + h.size) then larger else ok h

-- the rest of heap_insert
unfoldable pub append : Heap → ℕ → ℕ → Run Heap
unfolding load store
append h n value = do
  let idx = heap_head + h.size
  let h = set_index (record h { size = h.size + 1 }) n idx
  e ← load h idx
  h ← store h idx (record e { node = n })
  heap_bubble_up h idx value

unfoldable pub heap_insert : Allocator → Heap → ℕ → ℕ → Run Heap
unfolding grow append heap_bubble_up
heap_insert a h n value = do h ← grow a h; append h n value

-- `h->size--`; a heap of negative size, which C would go on with, is a fault here
unfoldable pub shrink : Heap → Run Heap
shrink h = if h.size == 0 then fault else ok (record h { size = h.size - 1 })

-- the end of heap_remove: the last item replaces the head
unfoldable pub last_to_head : Heap → Run Heap
unfolding shrink load store
last_to_head h = do
  h ← shrink h
  last ← load h (heap_head + h.size)
  h ← store h heap_head last
  heap_bubble_down (set_index h last.node heap_head)

unfoldable pub heap_remove : Heap → ℕ → Run Heap
unfolding last_to_head shrink heap_bubble_up heap_bubble_down load
heap_remove h idx =
    let rise : Run Heap = do head ← load h heap_head; heap_bubble_up h idx (sub32 head.value 1)
    in if idx == heap_head + h.size - 1
      then shrink h
      else ((if idx == heap_head then ok h else rise) >>= last_to_head)
