-- ===== src/Word.antt =====
-- 32-bit words: unsigned subtraction with its wrap-around, the sign of an `int32_t`, and the order
-- that heap.c and evloop.c put on time stamps by the sign of a difference.
use cthread.Base.{
  ℕ, ◌+◌, ◌-◌, ◌%◌, ◌^◌, ◌<◌, ◌≡◌, Bool, true, false, arith, ltb, leb, ◌==◌, if◌then◌else◌,
}

abbrev pub word_mod : ℕ
word_mod = 2 ^ 32

-- `a - b` on uint32_t
unfoldable pub sub32 : ℕ → ℕ → ℕ
sub32 a b = (a + word_mod - b) % word_mod

-- `(int32_t)w < 0`
unfoldable pub is_negative32 : ℕ → Bool
is_negative32 w = leb (2 ^ 31) w

-- `a + b` on uint32_t
unfoldable pub add32 : ℕ → ℕ → ℕ
add32 a b = (a + b) % word_mod

-- `negsuc n` is -(n + 1).
pub data ℤ : Type 0 where
  pos : ℕ → ℤ
  negsuc : ℕ → ℤ

-- `a == b` on int
abbrev pub eq_int : ℤ → ℤ → Bool
eq_int (pos a) (pos b) = a == b
eq_int (negsuc a) (negsuc b) = a == b
eq_int (pos a) (negsuc b) = false
eq_int (negsuc a) (pos b) = false

pub eq_int-eq : (a b : ℤ) → eq_int a b ≡ true → a ≡ b
eq_int-eq (pos a) (pos b) h = ground arith
eq_int-eq (negsuc a) (negsuc b) h = ground arith
eq_int-eq (pos a) (negsuc b) h = cc
eq_int-eq (negsuc a) (pos b) h = cc

pub eq_int_refl : (a : ℤ) → eq_int a a ≡ true
eq_int_refl (pos a) = ground arith
eq_int_refl (negsuc a) = ground arith

-- `(int32_t)w`
unfoldable pub signed32 : ℕ → ℤ
signed32 w = if ltb w (2 ^ 31) then pos w else negsuc (2 ^ 32 - w - 1)

-- `0 < z`
abbrev pub is_positive : ℤ → Bool
is_positive (pos n) = ltb 0 n
is_positive (negsuc n) = false

-- `z == 0`
abbrev pub is_zero : ℤ → Bool
is_zero (pos n) = n == 0
is_zero (negsuc n) = false

-- Seen from the instant `o`, the time `x` is `o` itself or lies ahead, by less than half the range
-- of the counter.
pub record IsNear (o x : ℕ) : Type 0 where
  pub origin : o < word_mod
  pub word : x < word_mod
  pub near : sub32 x o < 2 ^ 31

-- Between times near one instant, the sign of the difference is the order of time.
pub is_negative32-sub32 :
    (o x y : ℕ) → IsNear o x → IsNear o y → is_negative32 (sub32 x y) ≡ ltb (sub32 x o) (sub32 y o)
unfolding sub32 is_negative32
is_negative32-sub32 o x y a b = ground arith

pub sub32-lt : (x y : ℕ) → sub32 x y < word_mod
unfolding sub32
sub32-lt x y = omega arith

-- One tick earlier, while that does not pass the instant.
pub sub32-pred : (o x : ℕ) → IsNear o x → 0 < sub32 x o → sub32 (sub32 x 1) o + 1 ≡ sub32 x o
unfolding sub32
sub32-pred o x a h = omega arith
