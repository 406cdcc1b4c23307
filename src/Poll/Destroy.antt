-- ===== src/Poll/Destroy.antt =====
-- evloop.epoll.c: evloop_destroy.
use cthread.Base.{
  ℕ, zero, suc, ◌+◌, ◌≤◌, ◌<◌, Bool, true, false, ◌||◌, List, [], ◌∷◌, none, some, ◌≡◌, ◌≢◌, ◌==◌,
  refl, update, arith, Bool-cases, inl, inr, ap, ◌∙◌,
}
use cthread.Word.{ℤ, eq_int, eq_int_refl}
use cthread.Run.{Returns, returns, Returns-bind}
use cthread.Timers.{Loop}
use cthread.Poll.{Syscall, ctl_add, ctl_mod, close, Poll, Polls, KHash, is_open, load_poll, called}
use cthread.Poll.Inv.{PollInv, held_poll, one_fd}
use cthread.Poll.Step.{free_polls, evloop_destroy}

-- whether the descriptor has been closed
abbrev pub closes : ℤ → List Syscall → Bool
closes d [] = false
closes d (ctl_add e b p ∷ c) = closes d c
closes d (ctl_mod e b p ∷ c) = closes d c
closes d (close e ∷ c) = eq_int e d || closes d c

free_entry :
    (k : KHash) (n i : ℕ) (g : Polls k.Table) (p : ℕ) (q : Poll)
    → k.exist g.pollers i ≡ true
    → k.val g.pollers i ≡ p
    → g.poll p ≡ some q
    → free_polls k (suc n) i g
      ≡ free_polls k n (i + 1) (called (record g { poll = update g.poll p none }) (close q.fd))
unfolding free_polls load_poll
free_entry k n i g p q there here held = rw (there, here, load_poll, held) refl

module _ (k : KHash) {s : Polls k.Table} {xs : List ℕ} (inv : PollInv k s xs) where
  -- the polls of the entries below `i` are freed, and their descriptors closed
  record Freed (i : ℕ) (g : Polls k.Table) : Type 0 where
    pollers : g.pollers ≡ s.pollers
    gone : (d : ℤ) (p : ℕ) → k.find s.pollers d ≡ some p → k.get s.pollers d < i → g.poll p ≡ none
    shut :
        (d : ℤ) (p : ℕ)
        → k.find s.pollers d ≡ some p
        → k.get s.pollers d < i
        → closes d g.calls ≡ true
    left :
        (p : ℕ)
        → ((d : ℤ) → k.find s.pollers d ≡ some p → i ≤ k.get s.pollers d)
        → g.poll p ≡ s.poll p

  Freed-skip :
      (i : ℕ) (g : Polls k.Table) → Freed i g → k.exist s.pollers i ≡ false → Freed (i + 1) g
  Freed-skip i g f absent =
      let other : (d : ℤ) (p : ℕ) → k.find s.pollers d ≡ some p → k.get s.pollers d ≢ i = λ d p h e.
        let (there, low) = k.get-exist s.pollers d p h in cc (ap (k.exist s.pollers) e) in
      record {
        pollers = f.pollers;
        gone = λ d p h l. f.gone d p h (omega (arith, other d p h));
        shut = λ d p h l. f.shut d p h (omega (arith, other d p h));
        left = λ p h. f.left p λ d e. omega (arith, h d e);
      }

  module _ (i : ℕ) (g : Polls k.Table) (f : Freed i g) (there : k.exist s.pollers i ≡ true) where
    abbrev p0 : ℕ
    p0 = k.val s.pollers i

    freed_poll :
        (q : Poll) × (g.poll p0 ≡ some q)
        × (k.find s.pollers q.fd ≡ some p0)
        × (k.get s.pollers q.fd ≡ i)
    freed_poll =
        let (d, h, at) = k.find-exist s.pollers i there in
        let (q, e, fd) = held_poll d (s.poll p0) (inv.table d p0 h) in
        let here : g.poll p0 ≡ s.poll p0 =
          f.left p0 λ j m. rw (← one_fd k inv d j p0 h m) (omega (arith, at)) in
        (q, here ∙ e, rw fd h, rw fd at)

    module _ (q : Poll) (h : k.find s.pollers q.fd ≡ some p0) (at : k.get s.pollers q.fd ≡ i) where
      below :
          (d : ℤ) (p : ℕ)
          → k.find s.pollers d ≡ some p
          → (p0 == p) ≡ false
          → k.get s.pollers d < i + 1
          → k.get s.pollers d < i
      below d p m e l =
          let other : k.get s.pollers d ≢ i =
            λ here. absurd (ground (arith, k.get-some s.pollers d p m)) in
          omega (arith, other)

      closed_one : (d : ℤ) (p : ℕ) → k.find s.pollers d ≡ some p → (p0 == p) ≡ true → q.fd ≡ d
      closed_one d p m e = one_fd k inv q.fd d p0 h (ground (arith, m))

      later :
          (p : ℕ)
          → ((d : ℤ) → k.find s.pollers d ≡ some p → i + 1 ≤ k.get s.pollers d)
          → (p0 == p) ≡ false
      later p m = elim (Bool-cases (p0 == p)) [
        | inl e ↦ absurd (omega (arith, m q.fd (ground (arith, h)), at))
        | inr e ↦ e
      ]

      Freed-next : Freed (i + 1) (called (record g { poll = update g.poll p0 none }) (close q.fd))
      Freed-next = record {
        pollers = f.pollers;
        gone = λ d p m l. elim (Bool-cases (p0 == p)) [
          | inl e ↦ rw e refl
          | inr e ↦ rw e (f.gone d p m (below d p m e l))
        ];
        shut = λ d p m l. elim (Bool-cases (p0 == p)) [
          | inl e ↦ rw (closed_one d p m e, eq_int_refl d) refl
          | inr e ↦ ground (arith, f.shut d p m (below d p m e l))
        ];
        left = λ p m. rw (later p m) (f.left p λ d n. omega (arith, m d n));
      }

  free_polls_lem :
      (n i m : ℕ) (g : Polls k.Table)
      → i + n ≡ m
      → Freed i g
      → Returns (Freed m) (free_polls k n i g)
  unfolding free_polls
  free_polls_lem zero i m g all f = let here : i ≡ m = omega (arith, all) in returns (rw (← here) f)
  free_polls_lem (suc n) i m g all f =
      let rest : i + 1 + n ≡ m = omega (arith, all) in
      elim (Bool-cases (k.exist s.pollers i)) [
        | inl there ↦
            let (q, e, h, at) = freed_poll i g f there in
            rw (free_entry k n i g (k.val s.pollers i) q (rw f.pollers there) (rw f.pollers refl) e)
              (free_polls_lem n (i + 1) m _ rest (Freed-next i g f there q h at))
        | inr absent ↦
            let out : k.exist g.pollers i ≡ false = rw f.pollers absent in
            rw out (free_polls_lem n (i + 1) m g rest (Freed-skip i g f absent))
      ]

  -- what is left of the polls and the calls of the kernel
  pub record Destroyed (efd : ℤ) (g : Polls k.Table) : Type 0 where
    pub freed :
        (p : ℕ) (q : Poll)
        → s.poll p ≡ some q
        → is_open q.fd ≡ true
        → (g.poll p ≡ none) × (closes q.fd g.calls ≡ true)
    pub leaked : (p : ℕ) (q : Poll) → s.poll p ≡ some q → is_open q.fd ≡ false → g.poll p ≡ some q
    pub own : closes efd g.calls ≡ true

  Freed-Destroyed :
      (efd : ℤ) (g : Polls k.Table)
      → Freed (k.end s.pollers) g
      → Destroyed efd (called g (close efd))
  Freed-Destroyed efd g f = record {
    freed = λ p q e o.
        let h = (inv.each p q e).found o in
        let below = (k.get-exist s.pollers q.fd p h).1 in
        (f.gone q.fd p h below, ground (arith, f.shut q.fd p h below));
    leaked = λ p q e o. f.left p (λ d h. absurd (ground (arith, inv.table d p h, e))) ∙ e;
    own = rw (eq_int_refl efd) refl;
  }

-- evloop_destroy on a loop whose polls are well formed returns: it frees every poll of an open
-- descriptor and closes the descriptor, and closes the descriptor of epoll; a poll that is closed, but
-- that no evloop_step has freed yet, stays allocated.
pub evloop_destroy_lem :
    (k : KHash) (efd : ℤ) (e : Loop (Polls k.Table)) (xs : List ℕ) (inv : PollInv k e.rest xs)
    → Returns (λ g. Destroyed k inv efd g.rest) (evloop_destroy k efd e)
unfolding evloop_destroy
evloop_destroy_lem k efd e xs inv =
    let start : Freed k inv 0 e.rest = record {
      pollers = refl;
      gone = λ d p h l. absurd (omega (arith, l));
      shut = λ d p h l. absurd (omega (arith, l));
      left = λ p h. refl;
    } in
    let end : ℕ = k.end e.rest.pollers in
    Returns-bind (free_polls_lem k inv end 0 end e.rest (omega arith) start)
      λ g f. returns (Freed-Destroyed k inv efd g f)
