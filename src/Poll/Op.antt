-- ===== src/Poll/Op.antt =====
-- evloop.epoll.c: the operations on the polls as data, what they do to the map from the sides of the
-- descriptors to the watches, and when they are allowed.
use cthread.Base.{
  length, ℕ, ◌<◌, Bool, List, none, some, ◌≡◌, ◌≢◌, ◌⊎◌, ◌==◌, if◌then◌else◌, update, true,
}
use cthread.Word.{ℤ}
use cthread.Run.{Run, ok}
use cthread.Poll.{null, Polls, KHash, is_open, ev_watch, ev_unwatch, ev_close, flush}
use cthread.Poll.Inv.{PollInv}
use cthread.Poll.Kernel.{Epoll, Told}
use cthread.Poll.View.{Watches, set_watch, drop_fd}
use cthread.Poll.Watch.{registered}

-- the operations, with their arguments; the first is the assignment of a function to a watch
pub data Op : Type 0 where
  sets_fn : ℕ → ℕ → Op
  watches : ℕ → ℕ → ℤ → Bool → Op
  unwatches : ℕ → Op
  closes : ℤ → Op
  flushes : ℕ → Op

-- the map after an operation
abbrev pub after : Op → Watches → Watches
after (sets_fn w f) v = v
after (watches fresh w fd read) v = set_watch v fd read w
after (unwatches w) v = λ j c. if v j c == w then null else v j c
after (closes fd) v = drop_fd v fd
after (flushes fuel) v = v

-- a watch waits for one side of one descriptor
abbrev pub Once : Watches → Type 0
Once v = (i j : ℤ) (b c : Bool) → v i b ≡ v j c → v i b ≢ null → (i ≡ j) × (b ≡ c)

module _ (k : KHash) where
  abbrev pub perform : Op → Polls k.Table → Run (Polls k.Table)
  perform (sets_fn w f) s = ok (record s { watch_fn = update s.watch_fn w f })
  perform (watches fresh w fd read) s = ev_watch k fresh w fd read s
  perform (unwatches w) s = ev_unwatch w s
  perform (closes fd) s = ev_close k fd s
  perform (flushes fuel) s = flush fuel s

  -- When the library asks that an operation be called: a watch with a function, which waits for
  -- nothing, is put on a free side of a descriptor, with a block of memory from `calloc`; a watch that is
  -- taken off waits for something or has no poll. After ev_close its watches are not allowed here
  -- until they watch again: they still point at the poll.
  abbrev pub Allowed : Op → Polls k.Table → List ℕ → Watches → Type 0
  Allowed (sets_fn w f) s xs v = f ≢ null
  Allowed (watches fresh w fd read) s xs v =
      (s.watch_fn w ≢ null)
      × (v fd read ≡ null)
      × ((j : ℤ) (c : Bool) → v j c ≢ w)
      × (is_open fd ≡ true)
      × (fresh ≢ null)
      × (s.poll fresh ≡ none)
  Allowed (unwatches w) s xs v =
      (s.poll_data w ≡ null) ⊎ ((j : ℤ) × (c : Bool) × (v j c ≡ w) × (w ≢ null))
  Allowed (closes fd) s xs v = Unit
  Allowed (flushes fuel) s xs v = length xs < fuel

  -- The polls are well formed with the dirty list `xs`, the kernel knows the wanted events of those that
  -- have a watch and are not dirty, and they hold the watches of the map `v`, which have functions and
  -- point at their polls.
  pub record Follows (e : Epoll) (s : Polls k.Table) (xs : List ℕ) (v : Watches) : Type 0 where
    pub inv : PollInv k s xs
    pub told : Told e s xs
    pub view : (j : ℤ) (c : Bool) → registered k s j c ≡ v j c
    pub linked : (j : ℤ) (c : Bool) → v j c ≢ null → k.find s.pollers j ≡ some (s.poll_data (v j c))
    pub armed : (j : ℤ) (c : Bool) → v j c ≢ null → s.watch_fn (v j c) ≢ null
    pub once : Once v
