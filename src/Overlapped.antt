-- ===== src/Overlapped.antt =====
-- evloop.windows.c and evloop.windows.h: reads and writes of the Windows event loop.
-- `Overlapped` is the list of the watches whose operation has ended at once, with the members `next` and
-- `finished` of the `struct evwatch_data`s by the address of their watch, and the handles closed.
-- ReadFile and WriteFile are the parameter `Files`. The file does not compile: ev_recv does not
-- declare `e`, which is read as the loop of the thread, and ev_send does not declare `buf` and `rd`,
-- which are read as its `p` and `wr`.
pub mod Ready
use cthread.Base.{
  ℕ, ◌-◌, ◌%◌, ◌^◌, ◌≤◌, ◌≡◌, List, ◌∷◌, Option, none, some, ltb, if◌then◌else◌, update,
}
use cthread.Word.{ℤ, negsuc, signed32, word_mod}

pub record Overlapped : Type 0 where
  pub ready_list : ℕ
  pub next : ℕ → ℕ
  pub finished : ℕ → ℤ
  pub closed : List ℕ

-- ReadFile and WriteFile, given a handle, a buffer and a length, as documented: the number of bytes,
-- at most the length, if the operation ends at once, and none if it does not or fails.
pub record Files : Type 0 where
  pub read_file : ℕ → ℕ → ℕ → Option ℕ
  pub write_file : ℕ → ℕ → ℕ → Option ℕ
  pub read_fits : (fd buf len n : ℕ) → read_file fd buf len ≡ some n → n ≤ len
  pub write_fits : (fd buf len n : ℕ) → write_file fd buf len ≡ some n → n ≤ len

abbrev pub int_max : ℕ
int_max = 2 ^ 31 - 1

-- `if (sz > INT_MAX) sz = INT_MAX`, and `(DWORD)sz`
unfoldable pub request : ℕ → ℕ
request sz = (if ltb int_max sz then int_max else sz) % word_mod

-- the watch `w` after an operation
unfoldable pub finish : ℕ → Option ℕ → Overlapped → Overlapped
finish w none e = record e { finished = update e.finished w (negsuc 0) }
finish w (some n) e = record e {
  next = update e.next w e.ready_list;
  ready_list = w;
  finished = update e.finished w (signed32 n);
}

module _ (f : Files) where
  unfoldable pub ev_recv : ℕ → ℕ → ℕ → ℕ → Overlapped → Overlapped
  unfolding request finish
  ev_recv w fd buf sz e = finish w (f.read_file fd buf (request sz)) e

  unfoldable pub ev_send : ℕ → ℕ → ℕ → ℕ → Overlapped → Overlapped
  unfolding request finish
  ev_send w fd p sz e = finish w (f.write_file fd p (request sz)) e

unfoldable pub ev_finish : ℕ → Overlapped → ℤ
ev_finish w e = e.finished w

unfoldable pub ev_close : ℕ → Overlapped → Overlapped
ev_close fd e = record e { closed = fd ∷ e.closed }
