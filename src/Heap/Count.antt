-- ===== src/Heap/Count.antt =====
-- heap.c: sums over the time stamps in the heap, whatever their order. With a weight of 1 for some
-- and 0 for the others they count, so equal sums for all weights mean the same multiset.
use cthread.Base.{
  ℕ, zero, suc, ◌+◌, ◌-◌, ◌≤◌, ◌<◌, ◌≡◌, refl, arith, ◌==◌, update, Bool-cases, inl, inr,
}
use cthread.Heap.{Entry, Heap}

unfoldable pub total : (ℕ → ℕ) → (ℕ → Entry) → ℕ → ℕ
total w v zero = 0
total w v (suc n) = total w v n + w (v (suc n)).value

module _ (w : ℕ → ℕ) where
  pub total-update_past :
      (v : ℕ → Entry) (i : ℕ) (e : Entry) (n : ℕ) → n < i → total w (update v i e) n ≡ total w v n
  unfolding total
  total-update_past v i e zero h = refl
  total-update_past v i e (suc n) h = ground (arith, total-update_past v i e n (omega arith))

  pub total-update :
      (v : ℕ → Entry) (i : ℕ) (e : Entry) (n : ℕ)
      → 0 < i
      → i ≤ n
      → total w (update v i e) n + w (v i).value ≡ total w v n + w e.value
  unfolding total
  total-update v i e zero p q = absurd (omega arith)
  total-update v i e (suc n) p q = elim (Bool-cases (i == suc n)) [
    | inl last ↦ ground (arith, total-update_past v i e n)
    | inr below ↦ ground (arith, total-update v i e n)
  ]

  pub total-congr :
      (v u : ℕ → Entry) (n : ℕ) → ((i : ℕ) → 0 < i → i ≤ n → u i ≡ v i) → total w u n ≡ total w v n
  unfolding total
  total-congr v u zero h = refl
  total-congr v u (suc n) h =
      ground (arith, h (suc n), total-congr v u n (λ i p q. h i p (omega arith)))

  pub total-last : (v : ℕ → Entry) (n : ℕ) → 0 < n → total w v n ≡ total w v (n - 1) + w (v n).value
  unfolding total
  total-last v zero h = absurd (omega arith)
  total-last v (suc n) h = let e : suc n - 1 ≡ n = omega arith in rw e

-- the sum of the weights of the time stamps in the heap
abbrev pub sum : (ℕ → ℕ) → Heap → ℕ
sum w h = total w h.v h.size
