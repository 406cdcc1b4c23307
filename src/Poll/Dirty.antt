-- ===== src/Poll/Dirty.antt =====
-- evloop.epoll.c: mark_dirty.
use cthread.Base.{
  has, ℕ, true, false, List, ◌∷◌, some, ◌≡◌, ◌≢◌, refl, ap, if◌then◌else◌, arith, Bool-cases, inl,
  inr,
}
use cthread.Run.{ok, Returns, returns}
use cthread.Poll.{null, Poll, Polls, mark_dirty, load_poll, set_poll}
use cthread.Poll.Inv.{IsPlain, Chain, cons, Chain-frame}

-- the poll `p`, with the value `q`, is on the dirty list of `g`, and nothing else has changed
pub record Touched {T : Type 0} (s : Polls T) (xs : List ℕ) (p : ℕ) (q : Poll) (g : Polls T)
    : Type 0 where
  pub list : List ℕ
  pub chain : Chain g.poll g.dirty_list list
  pub has_p : has p list ≡ true
  pub has_other : (a : ℕ) → p ≢ a → has a list ≡ has a xs
  pub node : Poll
  pub here : g.poll p ≡ some node
  pub dirty : node.flags.err ≡ true
  pub fd : node.fd ≡ q.fd
  pub rd : node.rd ≡ q.rd
  pub wr : node.wr ≡ q.wr
  pub et : node.flags.et ≡ q.flags.et
  pub plain : IsPlain q → IsPlain node
  pub others : (a : ℕ) → p ≢ a → g.poll a ≡ s.poll a
  pub pollers : g.pollers ≡ s.pollers
  pub poll_data : g.poll_data ≡ s.poll_data
  pub watch_fn : g.watch_fn ≡ s.watch_fn
  pub calls : g.calls ≡ s.calls

module _ {T : Type 0} (s : Polls T) (xs : List ℕ) (p : ℕ) (q : Poll) where
  abbrev pushed : Polls T
  pushed =
      record (set_poll s p
        (record q { flags = record (q.flags) { err = true }; next = s.dirty_list })) {
          dirty_list = p;
        }

  Touched-pushed :
      Chain s.poll s.dirty_list xs → p ≢ null → has p xs ≡ false → Touched s xs p q pushed
  Touched-pushed c nz out = record {
    list = p ∷ xs;
    chain = cons nz (ground arith) (ground arith) out (Chain-frame c λ a i. ground arith);
    has_p = ground arith;
    has_other = λ a ne. ground arith;
    node = record q { flags = record (q.flags) { err = true }; next = s.dirty_list };
    here = ground arith;
    dirty = refl;
    fd = refl;
    rd = refl;
    wr = refl;
    et = refl;
    plain = λ h. h;
    others = λ a ne. ground arith;
    pollers = refl;
    poll_data = refl;
    watch_fn = refl;
    calls = refl;
  }

  mark_dirty-old : s.poll p ≡ some q → q.flags.err ≡ true → mark_dirty p s ≡ ok s
  unfolding mark_dirty
  mark_dirty-old e d = ground arith

  mark_dirty-new : s.poll p ≡ some q → q.flags.err ≡ false → mark_dirty p s ≡ ok pushed
  unfolding mark_dirty
  mark_dirty-new e d = rw (load_poll, e) (ap (λ b. ok (if b then s else pushed)) d)

  Touched-old :
      Chain s.poll s.dirty_list xs
      → s.poll p ≡ some q
      → q.flags.err ≡ true
      → has p xs ≡ true
      → Touched s xs p q s
  Touched-old c e d listed = record {
    list = xs;
    chain = c;
    has_p = listed;
    has_other = λ a ne. refl;
    node = q;
    here = e;
    dirty = d;
    fd = refl;
    rd = refl;
    wr = refl;
    et = refl;
    plain = λ h. h;
    others = λ a ne. refl;
    pollers = refl;
    poll_data = refl;
    watch_fn = refl;
    calls = refl;
  }

  -- mark_dirty puts a poll on the dirty list, if it is not there.
  pub mark_dirty-Touched :
      Chain s.poll s.dirty_list xs
      → s.poll p ≡ some q
      → p ≢ null
      → (q.flags.err ≡ true → has p xs ≡ true)
      → (q.flags.err ≡ false → has p xs ≡ false)
      → Returns (Touched s xs p q) (mark_dirty p s)
  mark_dirty-Touched c e nz listed out = elim (Bool-cases (q.flags.err)) [
    | inl old ↦ rw (mark_dirty-old e old) (returns (Touched-old c e old (listed old)))
    | inr new ↦ rw (mark_dirty-new e new) (returns (Touched-pushed c nz (out new)))
  ]
