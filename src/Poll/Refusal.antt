-- ===== src/Poll/Refusal.antt =====
-- evloop.epoll.c: ev_watch where it does not succeed.
use cthread.Base.{ℕ, Bool, true, false, Option, none, some, ◌≡◌, ◌≢◌, ◌==◌, refl, arith}
use cthread.Word.{ℤ}
use cthread.Run.{Run, ok, fault, abort}
use cthread.Poll.{null, Poll, Polls, KHash, load_poll, obtain, attach, ev_watch}
use cthread.Poll.Inv.{side, poll_at}
use cthread.Poll.Watch.{registered}

attach-fault :
    {T : Type 0} (g : Polls T) (w p : ℕ) (q : Poll) (read : Bool)
    → g.poll p ≡ some q
    → side read (some q) ≢ null
    → attach w p read g ≡ fault
unfolding attach
attach-fault g w p q true held busy =
    let test : (q.rd == null) ≡ false = ground arith in rw (load_poll, held, test) refl
attach-fault g w p q false held busy =
    let test : (q.wr == null) ≡ false = ground arith in rw (load_poll, held, test) refl

module _ (k : KHash) (s : Polls k.Table) (fresh w : ℕ) (fd : ℤ) (read : Bool) where
  -- why ev_watch ends in an assertion or in `abort`: the watch has no function; there is no memory for
  -- the poll of a new descriptor; or the side of the descriptor has a watch
  pub data Refusal : Run (Polls k.Table) → Type 0 where
    unset : s.watch_fn w ≡ null → Refusal fault
    no_memory : s.watch_fn w ≢ null → k.find s.pollers fd ≡ none → fresh ≡ null → Refusal abort
    taken : s.watch_fn w ≢ null → registered k s fd read ≢ null → Refusal fault

  obtain-abort : k.find s.pollers fd ≡ none → fresh ≡ null → obtain k fresh fd s ≡ abort
  unfolding obtain
  obtain-abort f no_block =
      let (made, at, finds) = k.put-none s.pollers fd f in
      let test : (fresh == null) ≡ true = ground arith in rw (made, test) refl

  obtain-poll :
      (p : ℕ)
      → k.find s.pollers fd ≡ some p
      → obtain k fresh fd s ≡ ok (record s { pollers = (k.put s.pollers fd).0 }, p)
  unfolding obtain
  obtain-poll p f = let (made, at, same) = k.put-some s.pollers fd p f in rw (made, at) refl

  busy_in :
      (p : ℕ) (o : Option Poll)
      → s.poll p ≡ o
      → side read o ≢ null
      → (p' : ℕ) × (q : Poll) × (some p ≡ some p')
        × (s.poll p' ≡ some q)
        × (side read (some q) ≢ null)
  busy_in p none at busy = absurd (busy refl)
  busy_in p (some q) at busy = (p, q, refl, at, busy)

  busy_at :
      (m : Option ℕ)
      → side read (poll_at s m) ≢ null
      → (p : ℕ) × (q : Poll) × (m ≡ some p) × (s.poll p ≡ some q) × (side read (some q) ≢ null)
  busy_at none busy = absurd (busy refl)
  busy_at (some p) busy = busy_in p (s.poll p) refl busy

  -- If a watch has no function, if the side of the descriptor has a watch, or if there is no memory for
  -- the poll of a new descriptor, ev_watch does not return: it ends in a failed assertion in the first two
  -- cases, and in `abort` in the third.
  pub ev_watch-Refusal : {r : Run (Polls k.Table)} → Refusal r → ev_watch k fresh w fd read s ≡ r
  unfolding ev_watch
  ev_watch-Refusal (unset missing) =
      let test : (s.watch_fn w == null) ≡ true = ground arith in rw test refl
  ev_watch-Refusal (no_memory fn f no_block) =
      let test : (s.watch_fn w == null) ≡ false = ground arith in
      rw (test, obtain-abort f no_block) refl
  ev_watch-Refusal (taken fn busy) =
      let test : (s.watch_fn w == null) ≡ false = ground arith in
      let (p, q, f, held, full) = busy_at (k.find s.pollers fd) busy in
      rw (test, obtain-poll p f)
        (attach-fault (record s { pollers = (k.put s.pollers fd).0 }) w p q read held full)
