-- ===== src/Poll/View.antt =====
-- evloop.epoll.c: the polls as a map from the sides of the descriptors to the watches, and what a change
-- of one poll does to the map.
use cthread.Base.{
  ℕ, Bool, true, false, not, ◌&&◌, List, Option, none, some, ◌≡◌, ◌≢◌, ◌==◌, inl, inr, refl,
  if◌then◌else◌, arith, Bool-cases, sym, ap, ◌∙◌,
}
use cthread.Word.{ℤ, eq_int, eq_int-eq, eq_int_refl}
use cthread.Poll.{null, Poll, Polls, KHash, is_open}
use cthread.Poll.Inv.{PollInv, IsPollOf, poll_at, side, held_poll, one_fd}
use cthread.Poll.Obtain.{Obtained}
use cthread.Poll.Flush.{Flushed}
use cthread.Poll.Watch.{registered}

-- the watch for each side of each descriptor, or NULL; `true` is the side for reading
abbrev pub Watches : Type 0
Watches = ℤ → Bool → ℕ

abbrev pub nobody : Watches
nobody fd read = null

abbrev pub is_side : ℤ → Bool → ℤ → Bool → Bool
is_side fd read j c = eq_int fd j && (if read then c else not c)

abbrev pub set_watch : Watches → ℤ → Bool → ℕ → Watches
set_watch v fd read w j c = if is_side fd read j c then w else v j c

abbrev pub drop_fd : Watches → ℤ → Watches
drop_fd v fd j c = if eq_int fd j then null else v j c

pub open_poll :
    (fd : ℤ) (o : Option Poll) → IsPollOf fd o → (q : Poll) × (o ≡ some q) × (is_open q.fd ≡ true)
open_poll fd none h = absurd h
open_poll fd (some q) h = (q, refl, rw h.0 h.1)

module _ (k : KHash) {s : Polls k.Table} {xs : List ℕ} (inv : PollInv k s xs) where
  touch_here :
      (g : Polls k.Table) (p : ℕ) (q : Poll)
      → s.poll p ≡ some q
      → ((a : ℕ) → p ≢ a → g.poll a ≡ s.poll a)
      → (j : ℤ) (c : Bool) → eq_int q.fd j ≡ false
      → (m : Option ℕ) → k.find s.pollers j ≡ m
      → side c (poll_at g m) ≡ side c (poll_at s m)
  touch_here g p q h others j c miss none f = refl
  touch_here g p q h others j c miss (some a) f = elim (Bool-cases (p == a)) [
    | inl eq ↦
        let (r, at, fd) = held_poll j (s.poll a) (inv.table j a f) in
        let is : q.fd ≡ j = ground (arith, fd) in
        let same : eq_int q.fd j ≡ true = rw is (eq_int_refl j) in cc
    | inr ne ↦ ap (side c) (others a (ground arith))
  ]

  -- a side of the only descriptor whose poll has changed
  pub registered-touched :
      (g : Polls k.Table) (p : ℕ) (q n : Poll)
      → s.poll p ≡ some q
      → is_open q.fd ≡ true
      → g.pollers ≡ s.pollers
      → g.poll p ≡ some n
      → ((a : ℕ) → p ≢ a → g.poll a ≡ s.poll a)
      → (j : ℤ) (c : Bool)
      → registered k g j c ≡ (if eq_int q.fd j then side c (some n) else registered k s j c)
  registered-touched g p q n h o same here others j c = rw same (elim (Bool-cases (eq_int q.fd j)) [
    | inl hit ↦
        let f = (inv.each p q h).found o in
        let at : k.find s.pollers j ≡ some p = rw (← eq_int-eq q.fd j hit) f in
        rw (hit, at, here) refl
    | inr miss ↦ rw miss (touch_here g p q h others j c miss (k.find s.pollers j) refl)
  ])

  obtain_here :
      (fd : ℤ) (r : Polls k.Table × ℕ) (o : Obtained k s xs fd r) (j : ℤ) (c : Bool)
      → eq_int fd j ≡ false
      → (m : Option ℕ) → k.find r.0.pollers j ≡ m
      → side c (poll_at r.0 m) ≡ side c (poll_at s m)
  obtain_here fd r o j c miss none f = refl
  obtain_here fd r o j c miss (some a) f = elim (Bool-cases (r.1 == a)) [
    | inl eq ↦
        let (q, at, is) = held_poll j (r.0.poll a) (o.inv.table j a f) in
        let node : q ≡ o.node = ground (arith, o.here) in
        let fd_j : fd ≡ j = sym o.fd_eq ∙ ap (λ (x : Poll). x.fd) (sym node) ∙ is in
        let same : eq_int fd j ≡ true = rw fd_j (eq_int_refl j) in cc
    | inr ne ↦ ap (side c) (o.others a (ground arith))
  ]

  pub registered-Obtained :
      (fd : ℤ) (r : Polls k.Table × ℕ) (o : Obtained k s xs fd r) (j : ℤ) (c : Bool)
      → registered k r.0 j c ≡ registered k s j c
  registered-Obtained fd r o j c = elim (Bool-cases (eq_int fd j)) [
    | inl hit ↦ rw (← eq_int-eq fd j hit, o.found, o.here) (o.sides c)
    | inr miss ↦
        let same : k.find r.0.pollers j ≡ k.find s.pollers j = o.finds j ∙ rw miss refl in
        rw same (obtain_here fd r o j c miss (k.find s.pollers j) same)
  ]

  forget_here :
      (g : Polls k.Table) (fd : ℤ)
      → ((a : ℕ) → k.find s.pollers fd ≢ some a → g.poll a ≡ s.poll a)
      → (j : ℤ) (c : Bool) → eq_int fd j ≡ false
      → (m : Option ℕ) → k.find s.pollers j ≡ m
      → side c (poll_at g m) ≡ side c (poll_at s m)
  forget_here g fd others j c miss none f = refl
  forget_here g fd others j c miss (some a) f = ap (side c) (
      others a λ at.
        let fd_j = one_fd k inv fd j a at f in
        let same : eq_int fd j ≡ true = rw fd_j (eq_int_refl j) in cc)

  pub registered-forgot :
      (g : Polls k.Table) (fd : ℤ)
      → ((j : ℤ) → k.find g.pollers j ≡ (if eq_int fd j then none else k.find s.pollers j))
      → ((a : ℕ) → k.find s.pollers fd ≢ some a → g.poll a ≡ s.poll a)
      → (j : ℤ) (c : Bool) → registered k g j c ≡ (if eq_int fd j then null else registered k s j c)
  registered-forgot g fd finds others j c = rw (finds j) (elim (Bool-cases (eq_int fd j)) [
    | inl hit ↦ rw hit refl
    | inr miss ↦ rw miss (forget_here g fd others j c miss (k.find s.pollers j) refl)
  ])

  flush_here :
      (g : Polls k.Table)
      → Flushed s xs g
      → (j : ℤ) (c : Bool) (m : Option ℕ) → k.find s.pollers j ≡ m
      → side c (poll_at g m) ≡ side c (poll_at s m)
  flush_here g f j c none at = refl
  flush_here g f j c (some a) at =
      let (q, held, o) = open_poll j (s.poll a) (inv.table j a at) in
      rw (f.polls a, held) (ground arith)

  pub registered-Flushed :
      (g : Polls k.Table)
      → Flushed s xs g
      → (j : ℤ) (c : Bool) → registered k g j c ≡ registered k s j c
  registered-Flushed g f j c = rw f.pollers (flush_here g f j c (k.find s.pollers j) refl)
