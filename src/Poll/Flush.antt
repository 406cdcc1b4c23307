-- ===== src/Poll/Flush.antt =====
-- evloop.epoll.c: the loop of evloop_step over the dirty list.
use cthread.Base.{
  length, has, ℕ, zero, suc, ◌<◌, true, false, ◌||◌, List, [], Option, none, some, ◌≡◌, ◌==◌, refl,
  if◌then◌else◌, arith, Bool-cases, inl, inr, sym, subst, ◌∙◌,
}
use cthread.Word.{ℤ}
use cthread.Run.{Returns, returns, Returns-map, Returns-bind}
use cthread.Poll.{
  null, Poll, Polls, KHash, is_open, any_bits, wanted, load_poll, set_poll, tell, flush_loop, flush,
}
use cthread.Poll.Inv.{is_dirty, Chain, nil, cons, Chain-frame, PollInv, PollOk, IsPollOf}

-- what the loop makes of a poll: a closed one is freed, an open one is clean, and known to the kernel
-- if it was or if anything is wanted of it
abbrev pub swept : Option Poll → Option Poll
swept none = none
swept (some q) =
    if is_open q.fd
    then some (record q {
      next = null;
      flags = record (q.flags) { err = false; et = q.flags.et || any_bits (wanted q) };
    })
    else none

abbrev pub cleaned : Poll → Poll
cleaned q = record q { flags = record (q.flags) { err = false }; next = null }

pub visited : (m : Option Poll) → is_dirty m ≡ true → (q : Poll) × (m ≡ some q)
visited none d = cc
visited (some q) d = (q, refl)

module _ {T : Type 0} where
  pub tell-poll :
      (s : Polls T) (p a : ℕ) (q : Poll)
      → (tell p (cleaned q) (set_poll s p (cleaned q))).poll a
        ≡ (if p == a then swept (some q) else s.poll a)
  unfolding tell
  tell-poll s p a q = ground arith

  tell-rest :
      (s : Polls T) (p : ℕ) (q : Poll)
      → ((tell p q s).pollers ≡ s.pollers)
        × ((tell p q s).poll_data ≡ s.poll_data)
        × ((tell p q s).watch_fn ≡ s.watch_fn)
  unfolding tell
  tell-rest s p q = ground arith

  -- what the loop leaves
  pub record Flushed (s : Polls T) (xs : List ℕ) (g : Polls T) : Type 0 where
    pub polls : (a : ℕ) → g.poll a ≡ (if has a xs then swept (s.poll a) else s.poll a)
    pub pollers : g.pollers ≡ s.pollers
    pub poll_data : g.poll_data ≡ s.poll_data
    pub watch_fn : g.watch_fn ≡ s.watch_fn

  pub flush_loop-Flushed :
      (k p : ℕ) (s : Polls T) (xs : List ℕ)
      → length xs < k
      → Chain s.poll p xs
      → Returns (Flushed s xs) (flush_loop k p s)
  unfolding flush_loop load_poll
  flush_loop-Flushed zero p s xs f c = absurd (omega arith)
  flush_loop-Flushed (suc k) p s _ f nil =
      returns (record { polls = λ a. refl; pollers = refl; poll_data = refl; watch_fn = refl })
  flush_loop-Flushed (suc k) p s _ f (cons {n} {xs} nz d e out c) =
      let (q, held) = visited (s.poll p) d in
      let some_poll : (p == null) ≡ false = ground arith in
      let next : q.next ≡ n = ground arith in
      let t : Polls T = tell p (cleaned q) (set_poll s p (cleaned q)) in
      let at = λ (a : ℕ). tell-poll s p a q in
      let (pollers, poll_data, watch_fn) = tell-rest (set_poll s p (cleaned q)) p (cleaned q) in
      let spared : Chain t.poll n xs = Chain-frame c λ a i. ground (arith, at a) in
      rw (some_poll, load_poll, held, next)
        (Returns-map (flush_loop-Flushed k n t xs (omega arith) spared) λ g r. record {
          polls = λ a. ground (arith, r.polls a, at a);
          pollers = r.pollers ∙ pollers;
          poll_data = r.poll_data ∙ poll_data;
          watch_fn = r.watch_fn ∙ watch_fn;
        })

pub swept-open : (q : Poll) → is_open q.fd ≡ true → (r : Poll) × (swept (some q) ≡ some r)
swept-open q o = (
  record q {
    next = null;
    flags = record (q.flags) { err = false; et = q.flags.et || any_bits (wanted q) };
  },
  rw o refl,
)

pub swept-fd : (q r : Poll) → swept (some q) ≡ some r → r.fd ≡ q.fd
swept-fd q r e = ground arith

swept-some :
    (m : Option Poll) (r : Poll)
    → swept m ≡ some r
    → (q : Poll) × (m ≡ some q) × (r.fd ≡ q.fd) × (r.flags.err ≡ false) × (is_open r.fd ≡ true)
swept-some none r h = cc
swept-some (some q) r h = (q, refl, ground arith, ground arith, ground arith)

IsPollOf-swept : (fd : ℤ) (m : Option Poll) → IsPollOf fd m → IsPollOf fd (swept m)
IsPollOf-swept fd none h = h
IsPollOf-swept fd (some q) h = let o : is_open q.fd ≡ true = rw h.0 h.1 in rw o h

module _ (k : KHash) {s : Polls k.Table} {xs : List ℕ} (inv : PollInv k s xs) where
  swept-PollOk :
      (t : k.Table)
      → t ≡ s.pollers
      → (a : ℕ) (q : Poll) → (if has a xs then swept (s.poll a) else s.poll a) ≡ some q
      → PollOk k t [] a q
  swept-PollOk t same a q h = elim (Bool-cases (has a xs)) [
    | inl old ↦
        let (q0, held, fd, clean, o) = swept-some (s.poll a) q (ground arith) in
        record {
          listed = λ d. cc;
          found = λ u. rw (same, fd) ((inv.each a q0 held).found (rw (← fd) o));
          closed = λ u. cc;
        }
    | inr new ↦
        let ok_a = inv.each a q (ground arith) in
        record {
          listed = λ d. let l = ok_a.listed d in cc;
          found = λ u. rw same (ok_a.found u);
          closed = λ u. let l = ok_a.listed (ok_a.closed u).0 in cc;
        }
  ]

  swept-table :
      (fd : ℤ) (a : ℕ)
      → IsPollOf fd (s.poll a)
      → IsPollOf fd (if has a xs then swept (s.poll a) else s.poll a)
  swept-table fd a h = elim (Bool-cases (has a xs)) [
    | inl old ↦ rw old (IsPollOf-swept fd (s.poll a) h)
    | inr new ↦ rw new h
  ]

  -- On a well-formed state, with more fuel than polls are on the dirty list, the loop returns without
  -- a fault. The state is well formed with an empty dirty list, the closed polls are freed and no
  -- others, and the table and the watches are as before.
  pub flush_lem :
      (fuel : ℕ) → length xs < fuel → Returns (λ g. PollInv k g [] × Flushed s xs g) (flush fuel s)
  unfolding flush
  flush_lem fuel f = Returns-bind (flush_loop-Flushed fuel s.dirty_list s xs f inv.chain) λ g r.
      returns (
        record {
          chain = nil;
          null_free = ground (arith, r.polls null, inv.null_free);
          each = λ a q h. swept-PollOk g.pollers r.pollers a q (sym (r.polls a) ∙ h);
          table = λ fd a h.
              subst (IsPollOf fd) (sym (r.polls a))
                (swept-table fd a (inv.table fd a (rw r.pollers at h)));
        },
        record {
          polls = r.polls;
          pollers = r.pollers;
          poll_data = r.poll_data;
          watch_fn = r.watch_fn;
        },
      )
