-- ===== src/Atomics.antt =====
-- cthread-atomics.h: the stand-ins for atomic operations, by the range of the type. A value is the pattern
-- of its bits, a number below 2^w, and `p` is the object that the C parameter points at; an operation
-- returns its result and the new value. What C does not define, which is the overflow of a signed type
-- that is not promoted, and what is no C, which is arithmetic on `void *`, is a fault.
pub mod Types
pub mod Choice
pub mod Generic
use cthread.Base.{
  ℕ, zero, suc, ◌+◌, ◌-◌, ◌%◌, ◌^◌, ◌≤◌, Bool, true, false, not, ◌&&◌, leb, ltb, Option, none, some,
  ◌<◌, ◌≡◌, ◌≢◌, ◌==◌, ◌∙◌, if◌then◌else◌, arith, refl, Bool-cases, inl, inr,
}
use cthread.Run.{Run, ok, fault, ◌>>=◌}
use Prim.Native.Nat.{bit_and, bit_or, bit_xor}
use native.Mathlib.Nat.{mod-eq_of_lt, add-mod_right, mod-eq-sub-mod}

-- _Bool, the integers of a number of bits, and `void *`
pub data Shape : Type 0 where
  boolean : Shape
  unsigned : ℕ → Shape
  signed : ℕ → Shape
  pointer : Shape

abbrev pub is_negative : ℕ → ℕ → Bool
is_negative w x = leb (2 ^ (w - 1)) x

abbrev pub agree : Bool → Bool → Bool
agree x y = if x then y else not y

abbrev pub wrapped : ℕ → ℕ → ℕ
wrapped w x = x % 2 ^ w

-- `p + v` or `p - v` with the result `r` leaves the range of a signed type; `int` has 32 bits, and what
-- is shorter is computed in it
abbrev pub sum_overflows : ℕ → ℕ → ℕ → Bool
sum_overflows w p v =
    let r = wrapped w (p + v) in
    leb 32 w
    && agree (is_negative w p) (is_negative w v)
    && not (agree (is_negative w p) (is_negative w r))

abbrev pub difference_overflows : ℕ → ℕ → ℕ → Bool
difference_overflows w p v =
    let r = wrapped w (p + 2 ^ w - v) in
    leb 32 w
    && not (agree (is_negative w p) (is_negative w v))
    && not (agree (is_negative w p) (is_negative w r))

-- the value that `+=` stores
unfoldable pub sum : Shape → ℕ → ℕ → Run ℕ
sum boolean p v = ok (if p + v == 0 then 0 else 1)
sum (unsigned w) p v = ok (wrapped w (p + v))
sum (signed w) p v = if sum_overflows w p v then fault else ok (wrapped w (p + v))
sum pointer p v = fault

-- the value that `-=` stores
unfoldable pub difference : Shape → ℕ → ℕ → Run ℕ
difference boolean p v = ok (if p == v then 0 else 1)
difference (unsigned w) p v = ok (wrapped w (p + 2 ^ w - v))
difference (signed w) p v =
    if difference_overflows w p v then fault else ok (wrapped w (p + 2 ^ w - v))
difference pointer p v = fault

-- the value that `|=`, `^=` or `&=` stores
unfoldable pub bits : Shape → ℕ → Run ℕ
bits boolean x = ok x
bits (unsigned w) x = ok x
bits (signed w) x = ok x
bits pointer x = fault

unfoldable pub ct_init : ℕ → ℕ → ℕ
ct_init p v = v

unfoldable pub ct_load : ℕ → ℕ
ct_load p = p

unfoldable pub ct_store : ℕ → ℕ → ℕ
ct_store p v = v

-- the result, `p`, and `exp`
unfoldable pub ct_compare_exchange : ℕ → ℕ → ℕ → Bool × ℕ × ℕ
ct_compare_exchange p exp v = if p == exp then (true, v, exp) else (false, p, exp)

unfoldable pub ct_exchange : ℕ → ℕ → ℕ × ℕ
ct_exchange p v = (p, v)

unfoldable pub ct_fetch_add : Shape → ℕ → ℕ → Run (ℕ × ℕ)
ct_fetch_add t p v = do r ← sum t p v; ok (p, r)

unfoldable pub ct_fetch_sub : Shape → ℕ → ℕ → Run (ℕ × ℕ)
ct_fetch_sub t p v = do r ← difference t p v; ok (p, r)

unfoldable pub ct_fetch_or : Shape → ℕ → ℕ → Run (ℕ × ℕ)
ct_fetch_or t p v = do r ← bits t (bit_or p v); ok (p, r)

unfoldable pub ct_fetch_xor : Shape → ℕ → ℕ → Run (ℕ × ℕ)
ct_fetch_xor t p v = do r ← bits t (bit_xor p v); ok (p, r)

unfoldable pub ct_fetch_and : Shape → ℕ → ℕ → Run (ℕ × ℕ)
ct_fetch_and t p v = do r ← bits t (bit_and p v); ok (p, r)

-- `ct_atomic_flag`
unfoldable pub ct_atomic_flag_test_and_set : Bool → Bool × Bool
ct_atomic_flag_test_and_set p = (p, true)

unfoldable pub ct_atomic_flag_clear : Bool → Bool
ct_atomic_flag_clear p = false

-- the type has `+=` as a group, and the sum is in its range if C asks for that
abbrev pub Adds : Shape → ℕ → ℕ → Type 0
Adds boolean p v = ⊥
Adds (unsigned w) p v = (p < 2 ^ w) × (v < 2 ^ w)
Adds (signed w) p v = (p < 2 ^ w) × (v < 2 ^ w) × (sum_overflows w p v ≡ false)
Adds pointer p v = ⊥

-- the sum modulo the range
abbrev pub total : Shape → ℕ → ℕ → ℕ
total boolean p v = 0
total (unsigned w) p v = wrapped w (p + v)
total (signed w) p v = wrapped w (p + v)
total pointer p v = 0

wrap_back : (n p v : ℕ) → p < n → v < n → ((p + v) % n + n - v) % n ≡ p
wrap_back n p v hp hv = elim (Bool-cases (ltb (p + v) n)) [
  | inl low ↦
      let here : (p + v) % n ≡ p + v = mod-eq_of_lt (ground arith) in
      let same : p + v + n - v ≡ p + n = omega arith in
      rw (here, same) (add-mod_right p n ∙ mod-eq_of_lt hp)
  | inr high ↦
      let over : n ≤ p + v = ground arith in
      let here : (p + v) % n ≡ p + v - n =
        mod-eq-sub-mod over ∙ mod-eq_of_lt (omega (arith, over, hp, hv)) in
      let same : p + v - n + n - v ≡ p = omega (arith, over) in rw (here, same) (mod-eq_of_lt hp)
]

overflow_back :
    (wide x y z : Bool)
    → (wide && agree x y && not (agree x z)) ≡ false
    → (wide && not (agree z y) && not (agree z x)) ≡ false
overflow_back wide x y z h = ground arith

-- What was added can be taken away again, through an overflow too where the type wraps around, and each
-- step returns the value before it.
pub ct_fetch_sub-ct_fetch_add :
    (t : Shape) (p v : ℕ)
    → Adds t p v
    → (ct_fetch_add t p v ≡ ok (p, total t p v))
      × (ct_fetch_sub t (total t p v) v ≡ ok (total t p v, p))
unfolding ct_fetch_sub ct_fetch_add sum difference
ct_fetch_sub-ct_fetch_add boolean p v h = absurd h
ct_fetch_sub-ct_fetch_add (unsigned w) p v (hp, hv) = (refl, rw (wrap_back (2 ^ w) p v hp hv) refl)
ct_fetch_sub-ct_fetch_add (signed w) p v (hp, hv, fits) =
    let back = wrap_back (2 ^ w) p v hp hv in
    let fits_back : difference_overflows w (wrapped w (p + v)) v ≡ false = rw back (
      overflow_back (leb 32 w) (is_negative w p) (is_negative w v)
        (is_negative w (wrapped w (p + v))) fits) in
    (rw fits refl, rw (fits_back, back) refl)
ct_fetch_sub-ct_fetch_add pointer p v h = absurd h
