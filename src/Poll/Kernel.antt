-- ===== src/Poll/Kernel.antt =====
-- evloop.epoll.c: what the kernel is told about one descriptor.
use cthread.Base.{
  has, ℕ, Bool, true, false, List, ◌∷◌, Option, none, some, ◌≡◌, ◌≢◌, refl, arith, Bool-cases, inl,
  inr, ◌∙◌,
}
use cthread.Word.{ℤ, eq_int}
use cthread.Poll.{
  Syscall, ctl_add, ctl_mod, close, Bits, Poll, Polls, is_open, any_bits, wanted, tell,
}
use cthread.Poll.Inv.{IsPlain}

-- What epoll(7) says of a sequence of calls, the last one first: the events and the pointer that are
-- registered for a descriptor. EPOLL_CTL_ADD is for a descriptor that is not registered, and
-- EPOLL_CTL_MOD for one that is; close ends a registration. Each call succeeds: the source ignores the
-- result of epoll_ctl, and what follows a failure is left out.
pub record Epoll : Type 0 where
  pub interest : List Syscall → ℤ → Option (Bits × ℕ)
  pub interest-close : (c : List Syscall) (d : ℤ) → interest (close d ∷ c) d ≡ none
  pub interest-add :
      (c : List Syscall) (d : ℤ) (b : Bits) (p : ℕ)
      → interest c d ≡ none
      → interest (ctl_add d b p ∷ c) d ≡ some (b, p)
  pub interest-mod :
      (c : List Syscall) (d : ℤ) (b : Bits) (p : ℕ) (r : Bits × ℕ)
      → interest c d ≡ some r
      → interest (ctl_mod d b p ∷ c) d ≡ some (b, p)
  pub add-other :
      (c : List Syscall) (d j : ℤ) (b : Bits) (p : ℕ)
      → eq_int d j ≡ false
      → interest (ctl_add d b p ∷ c) j ≡ interest c j
  pub mod-other :
      (c : List Syscall) (d j : ℤ) (b : Bits) (p : ℕ)
      → eq_int d j ≡ false
      → interest (ctl_mod d b p ∷ c) j ≡ interest c j
  pub close-other :
      (c : List Syscall) (d j : ℤ) → eq_int d j ≡ false → interest (close d ∷ c) j ≡ interest c j

-- the events that the code asks for, and the pointer that they come back with
abbrev pub asked : Poll → ℕ → Bits × ℕ
asked q p = (record (wanted q) { et = true }, p)

abbrev pub is_some : Option (Bits × ℕ) → Bool
is_some none = false
is_some (some r) = true

is_some-inv : (o : Option (Bits × ℕ)) → is_some o ≡ true → (r : Bits × ℕ) × (o ≡ some r)
is_some-inv none h = cc
is_some-inv (some r) h = (r, refl)

is_some-false : (o : Option (Bits × ℕ)) → is_some o ≡ false → o ≡ none
is_some-false none h = refl
is_some-false (some r) h = cc

module _ (e : Epoll) {T : Type 0} where
  open e use {interest, interest-add, interest-mod, add-other, mod-other}

  -- The kernel knows the open polls with the flag EPOLLET and no other descriptor, and for each with a
  -- watch that is not among `xs` exactly what the code asks for.
  pub record Told (s : Polls T) (xs : List ℕ) : Type 0 where
    pub distinct :
        (a b : ℕ) (q r : Poll)
        → s.poll a ≡ some q
        → s.poll b ≡ some r
        → is_open q.fd ≡ true
        → q.fd ≡ r.fd
        → a ≡ b
    pub plain : (a : ℕ) (q : Poll) → s.poll a ≡ some q → IsPlain q
    pub known :
        (a : ℕ) (q : Poll)
        → s.poll a ≡ some q
        → is_open q.fd ≡ true
        → is_some (interest s.calls q.fd) ≡ q.flags.et
    pub synced :
        (a : ℕ) (q : Poll)
        → s.poll a ≡ some q
        → has a xs ≡ false
        → is_open q.fd ≡ true
        → any_bits (wanted q) ≡ true
        → interest s.calls q.fd ≡ some (asked q a)
    pub unknown :
        (j : ℤ)
        → is_open j ≡ true
        → ((a : ℕ) (q : Poll) → s.poll a ≡ some q → q.fd ≢ j)
        → interest s.calls j ≡ none

  module _ (s : Polls T) (p : ℕ) (q : Poll) where
    abbrev after : Polls T
    after = tell p q s

    pub tell-other : (j : ℤ) → eq_int q.fd j ≡ false → interest after.calls j ≡ interest s.calls j
    unfolding tell
    tell-other j ne = ground (
      arith,
      add-other s.calls q.fd j (record (wanted q) { et = true }) p,
      mod-other s.calls q.fd j (record (wanted q) { et = true }) p,
    )

    pub tell-closed : is_open q.fd ≡ false → after.calls ≡ s.calls
    unfolding tell
    tell-closed o = ground arith

    pub tell-idle : IsPlain q → any_bits (wanted q) ≡ false → (after.calls ≡ s.calls)
    unfolding tell
    tell-idle plain none_wanted = ground arith

    tell-add :
        is_open q.fd ≡ true
        → any_bits (wanted q) ≡ true
        → q.flags.et ≡ false
        → after.calls ≡ ctl_add q.fd (asked q p).0 p ∷ s.calls
    unfolding tell
    tell-add o w f = ground arith

    tell-mod :
        is_open q.fd ≡ true
        → IsPlain q
        → any_bits (wanted q) ≡ true
        → q.flags.et ≡ true
        → after.calls ≡ ctl_mod q.fd (asked q p).0 p ∷ s.calls
    unfolding tell
    tell-mod o plain w f = ground arith

    pub tell-wanted :
        is_open q.fd ≡ true
        → IsPlain q
        → is_some (interest s.calls q.fd) ≡ q.flags.et
        → any_bits (wanted q) ≡ true
        → interest after.calls q.fd ≡ some (asked q p)
    tell-wanted o plain known w = elim (Bool-cases q.flags.et) [
      | inl old ↦
          let (r, at) = is_some-inv (interest s.calls q.fd) (known ∙ old) in
          rw (tell-mod o plain w old) (interest-mod s.calls q.fd (asked q p).0 p r at)
      | inr new ↦ rw (tell-add o w new) (
          interest-add s.calls q.fd (asked q p).0 p
            (is_some-false (interest s.calls q.fd) (known ∙ new)))
    ]
