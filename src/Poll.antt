-- ===== src/Poll.antt =====
-- evloop.epoll.c: the file descriptors that the event loop watches.
-- `Polls` holds the members of `struct evloop` for them and the objects that they reach: the
-- `struct evloop_poll`s by address, where `none` is memory that is not allocated, the members `fn`
-- and `poll_data` of the `struct evwatch`es by address, and the calls made to the kernel, the last
-- one first. Address 0 is NULL. A set of bits is a record with a member for each bit that is used.
-- khash.h is the parameter `KHash`; `find` is what its table maps a key to.
pub mod Step
pub mod Deliver
pub mod Dispatch
pub mod Branches
pub mod Init
pub mod Destroy
pub mod Dirty
pub mod Touch
pub mod Attach
pub mod Obtain
pub mod Watch
pub mod Unwatch
pub mod Close
pub mod Flush
pub mod Kernel
pub mod Sync
pub mod Known
pub mod Gone
pub mod View
pub mod Op
pub mod Follows
pub mod Leaves
pub mod Refine
pub mod Leftover
pub mod Reach
pub mod Calls
pub mod Refusal
pub mod Stale
pub mod Inv
use cthread.Base.{
  ◌<◌, ℕ, zero, suc, Bool, true, false, ◌&&◌, ◌||◌, not, List, [], ◌∷◌, Option, none, some, ◌≡◌,
  ◌≢◌, ◌==◌, if◌then◌else◌, update,
}
use cthread.Word.{ℤ, pos, negsuc, eq_int}
use cthread.Run.{Run, ok, fault, abort, ◌>>=◌, ◌>>◌, assert}

abbrev pub null : ℕ
null = 0

-- EPOLLERR (FLAG_DIRTY), EPOLLET, EPOLLIN, EPOLLOUT and EPOLLHUP
pub record Bits : Type 0 where
  pub err : Bool
  pub et : Bool
  pub rd : Bool
  pub wr : Bool
  pub hup : Bool

abbrev pub no_bits : Bits
no_bits = record { err = false; et = false; rd = false; wr = false; hup = false }

-- `struct evloop_poll`
pub record Poll : Type 0 where
  pub next : ℕ
  pub rd : ℕ
  pub wr : ℕ
  pub fd : ℤ
  pub flags : Bits

-- epoll_ctl with EPOLL_CTL_ADD or EPOLL_CTL_MOD, a descriptor, events and the pointer that events
-- come back with; and close
pub data Syscall : Type 0 where
  ctl_add : ℤ → Bits → ℕ → Syscall
  ctl_mod : ℤ → Bits → ℕ → Syscall
  close : ℤ → Syscall

pub record Polls (T : Type 0) : Type 0 where
  pub dirty_list : ℕ
  pub pollers : T
  pub poll : ℕ → Option Poll
  pub watch_fn : ℕ → ℕ
  pub poll_data : ℕ → ℕ
  pub calls : List Syscall

-- The table of khash.h, as documented there: `put` finds or makes the entry of a key, and says by
-- its last result whether it made one; a new entry has a value once it is set.
pub record KHash : Type 1 where
  pub Table : Type 0
  pub init : Table
  pub end : Table → ℕ
  pub get : Table → ℤ → ℕ
  pub put : Table → ℤ → Table × ℕ × Bool
  pub val : Table → ℕ → ℕ
  pub set_val : Table → ℕ → ℕ → Table
  pub del : Table → ℕ → Table
  pub exist : Table → ℕ → Bool
  pub find : Table → ℤ → Option ℕ
  pub find-init : (k : ℤ) → find init k ≡ none
  pub get-none : (t : Table) (k : ℤ) → find t k ≡ none → get t k ≡ end t
  pub get-some :
      (t : Table) (k : ℤ) (p : ℕ) → find t k ≡ some p → (get t k ≢ end t) × (val t (get t k) ≡ p)
  pub put-some :
      (t : Table) (k : ℤ) (p : ℕ)
      → find t k ≡ some p
      → ((put t k).2 ≡ false)
        × (val (put t k).0 (put t k).1 ≡ p)
        × ((j : ℤ) → find (put t k).0 j ≡ find t j)
  pub put-none :
      (t : Table) (k : ℤ)
      → find t k ≡ none
      → ((put t k).2 ≡ true)
        × ((p : ℕ) → val (set_val (put t k).0 (put t k).1 p) (put t k).1 ≡ p)
        × ((p : ℕ) (j : ℤ)
            → find (set_val (put t k).0 (put t k).1 p) j
              ≡ (if eq_int k j then some p else find t j))
  pub find-del :
      (t : Table) (k j : ℤ) (p : ℕ)
      → find t k ≡ some p
      → find (del t (get t k)) j ≡ (if eq_int k j then none else find t j)
  pub find-exist :
      (t : Table) (i : ℕ) → exist t i ≡ true → (k : ℤ) × (find t k ≡ some (val t i)) × (get t k ≡ i)
  pub get-exist :
      (t : Table) (k : ℤ) (p : ℕ)
      → find t k ≡ some p
      → (exist t (get t k) ≡ true) × (get t k < end t)

-- the events that the watches of a poll want
abbrev pub wanted : Poll → Bits
wanted q = record no_bits {
  rd = not (q.rd == null);
  hup = not (q.rd == null);
  wr = not (q.wr == null);
}

-- `ev.events` as a condition
abbrev pub any_bits : Bits → Bool
any_bits b = b.err || b.et || b.rd || b.wr || b.hup

-- `a != b`
abbrev pub differ : Bits → Bits → Bool
differ a b =
    let eq = λ (x y : Bool). if x then y else not y in
    not (eq a.err b.err && eq a.et b.et && eq a.rd b.rd && eq a.wr b.wr && eq a.hup b.hup)

abbrev pub is_open : ℤ → Bool
is_open (pos n) = true
is_open (negsuc n) = false

module _ {T : Type 0} where
  -- `*p`
  unfoldable pub load_poll : Polls T → ℕ → Run Poll
  load_poll s p = elim (s.poll p) [ none ↦ fault | some q ↦ ok q ]

  -- `*p = q`, where `p` has been read before
  abbrev pub set_poll : Polls T → ℕ → Poll → Polls T
  set_poll s p q = record s { poll = update s.poll p (some q) }

  unfoldable pub mark_dirty : ℕ → Polls T → Run (Polls T)
  unfolding load_poll
  mark_dirty p s = do
    q ← load_poll s p
    let marked = record q { flags = record (q.flags) { err = true }; next = s.dirty_list }
    ok (if q.flags.err then s else record (set_poll s p marked) { dirty_list = p })

  -- the end of ev_watch, for the poll `p` of the descriptor; `read` is `ev == EV_READ`
  unfoldable pub attach : ℕ → ℕ → Bool → Polls T → Run (Polls T)
  unfolding load_poll
  attach w p read s = do
    let s = record s { poll_data = update s.poll_data w p }
    q ← load_poll s p
    assert (if read then q.rd == null else q.wr == null)
    mark_dirty p (set_poll s p (if read then record q { rd = w } else record q { wr = w }))

  unfoldable pub ev_unwatch : ℕ → Polls T → Run (Polls T)
  unfolding load_poll
  ev_unwatch w s =
      let p = s.poll_data w in
      let detach : Run (Polls T) = do
        let s = record s {
          poll_data = update s.poll_data w null;
          watch_fn = update s.watch_fn w null;
        }
        q ← load_poll s p
        assert (q.rd == w || q.wr == w)
        mark_dirty p
            (set_poll s p (if q.rd == w then record q { rd = null } else record q { wr = null }))
      in if p == null then ok s else detach

  abbrev pub called : Polls T → Syscall → Polls T
  called s c = record s { calls = c ∷ s.calls }

  -- the body of the loop over the dirty list in evloop_step, for the poll `p` with the value `q`,
  -- whose flag and link it has cleared
  unfoldable pub tell : ℕ → Poll → Polls T → Polls T
  tell p q s =
      let kernel = record no_bits { hup = q.flags.hup; rd = q.flags.rd; wr = q.flags.wr } in
      let events = wanted q in
      let registered = record q { flags = record (q.flags) { et = true } } in
      if not (is_open q.fd)
      then record s { poll = update s.poll p none }
      else if any_bits events && not q.flags.et
      then called (set_poll s p registered) (ctl_add q.fd (record events { et = true }) p)
      else if differ events kernel
      then called s (ctl_mod q.fd (record events { et = true }) p)
      else s

  -- the loop over the dirty list, with fuel
  unfoldable pub flush_loop : ℕ → ℕ → Polls T → Run (Polls T)
  flush_loop zero p s = fault
  flush_loop (suc k) p s =
      let visit : Run (Polls T) = do
        q ← load_poll s p
        let clean = record q { flags = record (q.flags) { err = false }; next = null }
        flush_loop k q.next (tell p clean (set_poll s p clean))
      in if p == null then ok s else visit

  -- the update of the kernel in evloop_step
  unfoldable pub flush : ℕ → Polls T → Run (Polls T)
  unfolding flush_loop tell load_poll
  flush fuel s = do s ← flush_loop fuel s.dirty_list s; ok (record s { dirty_list = null })

module _ (k : KHash) where
  -- the part of ev_watch that finds or makes the poll of `fd`; `fresh` is what `calloc` returns if it
  -- is asked
  unfoldable pub obtain : ℕ → ℤ → Polls k.Table → Run (Polls k.Table × ℕ)
  obtain fresh fd s =
      let (t, i, made) = k.put s.pollers fd in
      let zeroed : Poll = record { next = null; rd = null; wr = null; fd = fd; flags = no_bits } in
      let new = record (set_poll s fresh zeroed) { pollers = k.set_val t i fresh } in
      let old = record s { pollers = t } in
      if made
      then (if fresh == null then abort else ok (new, k.val new.pollers i))
      else ok (old, k.val t i)

  unfoldable pub ev_watch : ℕ → ℕ → ℤ → Bool → Polls k.Table → Run (Polls k.Table)
  unfolding obtain
  ev_watch fresh w fd read s = do
    assert (not (s.watch_fn w == null))
    (s, p) ← obtain fresh fd s
    attach w p read s

  unfoldable pub ev_close : ℤ → Polls k.Table → Run (Polls k.Table)
  unfolding load_poll
  ev_close fd s =
      let i = k.get s.pollers fd in
      let p = k.val s.pollers i in
      let forget : Run (Polls k.Table) = do
        q ← load_poll s p
        let closed = record q { fd = negsuc 0; rd = null; wr = null }
        mark_dirty p (record (set_poll s p closed) { pollers = k.del s.pollers i })
      in do s ← (if i == k.end s.pollers then ok s else forget); ok (called s (close fd))
