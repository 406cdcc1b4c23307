-- ===== src/Atomics/Choice.antt =====
-- cthread-atomics.h: the functions that CT_GENERIC picks for a type, and those that CT_ATOMIC defines.
use cthread.Base.{◌≡◌, refl}
use cthread.Atomics.Types.{
  CType, Suffix, c_bool, char, signed_char, unsigned_char, short, unsigned_short, int, unsigned_int,
  long, unsigned_long, long_long, unsigned_long_long, char16_t, char32_t, wchar_t, int_least8_t,
  uint_least8_t, int_least16_t, uint_least16_t, int_least32_t, uint_least32_t, int_least64_t,
  uint_least64_t, int_fast8_t, uint_fast8_t, int_fast16_t, uint_fast16_t, int_fast32_t,
  uint_fast32_t, int_fast64_t, uint_fast64_t, intptr_t, uintptr_t, size_t, ptrdiff_t, intmax_t,
  uintmax_t, void_ptr, on_bool, on_char, on_schar, on_uchar, on_short, on_ushort, on_int, on_uint,
  on_long, on_ulong, on_llong, on_ullong, on_char16_t, on_char32_t, on_wchar_t, on_int_least8_t,
  on_uint_least8_t, on_int_least16_t, on_uint_least16_t, on_int_least32_t, on_uint_least32_t,
  on_int_least64_t, on_uint_least64_t, on_int_fast8_t, on_uint_fast8_t, on_int_fast16_t,
  on_uint_fast16_t, on_int_fast32_t, on_uint_fast32_t, on_int_fast64_t, on_uint_fast64_t,
  on_intptr_t, on_uintptr_t, on_size_t, on_ptrdiff_t, on_intmax_t, on_uintmax_t, on_ptr,
}

-- CT_GENERIC
unfoldable pub generic : CType → Suffix
generic c_bool = on_bool
generic char = on_char
generic signed_char = on_schar
generic unsigned_char = on_uchar
generic short = on_short
generic unsigned_short = on_ushort
generic int = on_int
generic unsigned_int = on_uint
generic long = on_long
generic unsigned_long = on_ulong
generic long_long = on_llong
generic unsigned_long_long = on_ullong
generic char16_t = on_char16_t
generic char32_t = on_char32_t
generic wchar_t = on_wchar_t
generic int_least8_t = on_int_least8_t
generic uint_least8_t = on_uint_least8_t
generic int_least16_t = on_int_least16_t
generic uint_least16_t = on_uint_least16_t
generic int_least32_t = on_int_least32_t
generic uint_least32_t = on_uint_least32_t
generic int_least64_t = on_int_least64_t
generic uint_least64_t = on_uint_least64_t
generic int_fast8_t = on_int_fast8_t
generic uint_fast8_t = on_uint_fast8_t
generic int_fast16_t = on_int_fast16_t
generic uint_fast16_t = on_uint_fast16_t
generic int_fast32_t = on_int_fast32_t
generic uint_fast32_t = on_uint_fast32_t
generic int_fast64_t = on_int_fast64_t
generic uint_fast64_t = on_uint_fast64_t
generic intptr_t = on_intptr_t
generic uintptr_t = on_uintptr_t
generic size_t = on_size_t
generic ptrdiff_t = on_ptrdiff_t
generic intmax_t = on_intmax_t
generic uintmax_t = on_uintmax_t
generic void_ptr = on_ptr

-- the type of the functions with a suffix, from the uses of CT_ATOMIC
unfoldable pub instance_of : Suffix → CType
instance_of on_bool = c_bool
instance_of on_char = char
instance_of on_schar = signed_char
instance_of on_uchar = unsigned_char
instance_of on_short = short
instance_of on_ushort = unsigned_short
instance_of on_int = int
instance_of on_uint = unsigned_int
instance_of on_long = long
instance_of on_ulong = unsigned_long
instance_of on_llong = long_long
instance_of on_ullong = unsigned_long_long
instance_of on_char16_t = char16_t
instance_of on_char32_t = char32_t
instance_of on_wchar_t = wchar_t
instance_of on_int_least8_t = int_least8_t
instance_of on_uint_least8_t = uint_least8_t
instance_of on_int_least16_t = int_least16_t
instance_of on_uint_least16_t = uint_least16_t
instance_of on_int_least32_t = int_least32_t
instance_of on_uint_least32_t = uint_least32_t
instance_of on_int_least64_t = int_least64_t
instance_of on_uint_least64_t = uint_least64_t
instance_of on_int_fast8_t = int_fast8_t
instance_of on_uint_fast8_t = uint_fast8_t
instance_of on_int_fast16_t = int_fast16_t
instance_of on_uint_fast16_t = uint_fast16_t
instance_of on_int_fast32_t = int_fast32_t
instance_of on_uint_fast32_t = uint_fast32_t
instance_of on_int_fast64_t = int_fast64_t
instance_of on_uint_fast64_t = uint_fast64_t
instance_of on_intptr_t = intptr_t
instance_of on_uintptr_t = uintptr_t
instance_of on_size_t = size_t
instance_of on_ptrdiff_t = ptrdiff_t
instance_of on_intmax_t = intmax_t
instance_of on_uintmax_t = uintmax_t
instance_of on_ptr = void_ptr

-- CT_GENERIC picks the functions of the type.
pub instance_of-generic : (t : CType) → instance_of (generic t) ≡ t
unfolding generic instance_of
instance_of-generic c_bool = refl
instance_of-generic char = refl
instance_of-generic signed_char = refl
instance_of-generic unsigned_char = refl
instance_of-generic short = refl
instance_of-generic unsigned_short = refl
instance_of-generic int = refl
instance_of-generic unsigned_int = refl
instance_of-generic long = refl
instance_of-generic unsigned_long = refl
instance_of-generic long_long = refl
instance_of-generic unsigned_long_long = refl
instance_of-generic char16_t = refl
instance_of-generic char32_t = refl
instance_of-generic wchar_t = refl
instance_of-generic int_least8_t = refl
instance_of-generic uint_least8_t = refl
instance_of-generic int_least16_t = refl
instance_of-generic uint_least16_t = refl
instance_of-generic int_least32_t = refl
instance_of-generic uint_least32_t = refl
instance_of-generic int_least64_t = refl
instance_of-generic uint_least64_t = refl
instance_of-generic int_fast8_t = refl
instance_of-generic uint_fast8_t = refl
instance_of-generic int_fast16_t = refl
instance_of-generic uint_fast16_t = refl
instance_of-generic int_fast32_t = refl
instance_of-generic uint_fast32_t = refl
instance_of-generic int_fast64_t = refl
instance_of-generic uint_fast64_t = refl
instance_of-generic intptr_t = refl
instance_of-generic uintptr_t = refl
instance_of-generic size_t = refl
instance_of-generic ptrdiff_t = refl
instance_of-generic intmax_t = refl
instance_of-generic uintmax_t = refl
instance_of-generic void_ptr = refl
