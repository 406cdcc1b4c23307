-- ===== src/Atomics/Types.antt =====
-- cthread-atomics.h: the types of CT_GENERIC and CT_ATOMIC, on x86-64 Linux. `CType` has the types as the
-- source spells them and `Suffix` the ends of the functions' names. Two spellings of one type, such as
-- `signed char` and int_least8_t, are two constructors here, while _Generic does not allow them both.
use cthread.Atomics.{Shape, boolean, unsigned, signed, pointer}

pub data CType : Type 0 where
  c_bool : CType
  char : CType
  signed_char : CType
  unsigned_char : CType
  short : CType
  unsigned_short : CType
  int : CType
  unsigned_int : CType
  long : CType
  unsigned_long : CType
  long_long : CType
  unsigned_long_long : CType
  char16_t : CType
  char32_t : CType
  wchar_t : CType
  int_least8_t : CType
  uint_least8_t : CType
  int_least16_t : CType
  uint_least16_t : CType
  int_least32_t : CType
  uint_least32_t : CType
  int_least64_t : CType
  uint_least64_t : CType
  int_fast8_t : CType
  uint_fast8_t : CType
  int_fast16_t : CType
  uint_fast16_t : CType
  int_fast32_t : CType
  uint_fast32_t : CType
  int_fast64_t : CType
  uint_fast64_t : CType
  intptr_t : CType
  uintptr_t : CType
  size_t : CType
  ptrdiff_t : CType
  intmax_t : CType
  uintmax_t : CType
  void_ptr : CType

pub data Suffix : Type 0 where
  on_bool : Suffix
  on_char : Suffix
  on_schar : Suffix
  on_uchar : Suffix
  on_short : Suffix
  on_ushort : Suffix
  on_int : Suffix
  on_uint : Suffix
  on_long : Suffix
  on_ulong : Suffix
  on_llong : Suffix
  on_ullong : Suffix
  on_char16_t : Suffix
  on_char32_t : Suffix
  on_wchar_t : Suffix
  on_int_least8_t : Suffix
  on_uint_least8_t : Suffix
  on_int_least16_t : Suffix
  on_uint_least16_t : Suffix
  on_int_least32_t : Suffix
  on_uint_least32_t : Suffix
  on_int_least64_t : Suffix
  on_uint_least64_t : Suffix
  on_int_fast8_t : Suffix
  on_uint_fast8_t : Suffix
  on_int_fast16_t : Suffix
  on_uint_fast16_t : Suffix
  on_int_fast32_t : Suffix
  on_uint_fast32_t : Suffix
  on_int_fast64_t : Suffix
  on_uint_fast64_t : Suffix
  on_intptr_t : Suffix
  on_uintptr_t : Suffix
  on_size_t : Suffix
  on_ptrdiff_t : Suffix
  on_intmax_t : Suffix
  on_uintmax_t : Suffix
  on_ptr : Suffix

abbrev pub shape : CType → Shape
shape c_bool = boolean
shape char = signed 8
shape signed_char = signed 8
shape unsigned_char = unsigned 8
shape short = signed 16
shape unsigned_short = unsigned 16
shape int = signed 32
shape unsigned_int = unsigned 32
shape long = signed 64
shape unsigned_long = unsigned 64
shape long_long = signed 64
shape unsigned_long_long = unsigned 64
shape char16_t = unsigned 16
shape char32_t = unsigned 32
shape wchar_t = signed 32
shape int_least8_t = signed 8
shape uint_least8_t = unsigned 8
shape int_least16_t = signed 16
shape uint_least16_t = unsigned 16
shape int_least32_t = signed 32
shape uint_least32_t = unsigned 32
shape int_least64_t = signed 64
shape uint_least64_t = unsigned 64
shape int_fast8_t = signed 8
shape uint_fast8_t = unsigned 8
shape int_fast16_t = signed 64
shape uint_fast16_t = unsigned 64
shape int_fast32_t = signed 64
shape uint_fast32_t = unsigned 64
shape int_fast64_t = signed 64
shape uint_fast64_t = unsigned 64
shape intptr_t = signed 64
shape uintptr_t = unsigned 64
shape size_t = unsigned 64
shape ptrdiff_t = signed 64
shape intmax_t = signed 64
shape uintmax_t = unsigned 64
shape void_ptr = pointer
