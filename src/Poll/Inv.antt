-- ===== src/Poll/Inv.antt =====
-- evloop.epoll.c: what holds of the polls between the calls of the event loop. The dirty list runs
-- through the polls whose flag is set, once each; the table leads to the open polls; and a closed poll
-- is on the dirty list, where evloop_step frees it.
use cthread.Base.{
  has, ℕ, Bool, true, false, List, [], ◌∷◌, Option, none, some, ◌≡◌, ◌≢◌, if◌then◌else◌, arith,
  refl, sym, ap, ◌∙◌, Bool-cases, inl, inr,
}
use cthread.Word.{ℤ}
use cthread.Poll.{Syscall, null, Poll, Polls, KHash, is_open}

abbrev pub Memory : Type 0
Memory = ℕ → Option Poll

abbrev pub is_dirty : Option Poll → Bool
is_dirty none = false
is_dirty (some q) = q.flags.err

abbrev pub next_of : Option Poll → ℕ
next_of none = null
next_of (some q) = q.next

-- from `p` the links lead through the distinct polls `xs`, which are dirty, to NULL
pub data Chain (m : Memory) : ℕ → List ℕ → Type 0 where
  nil : Chain m null []
  cons :
      {p n : ℕ} {xs : List ℕ}
      → p ≢ null
      → is_dirty (m p) ≡ true
      → next_of (m p) ≡ n
      → has p xs ≡ false
      → Chain m n xs
      → Chain m p (p ∷ xs)

-- what a write elsewhere leaves
pub Chain-frame :
    {m g : Memory} {p : ℕ} {xs : List ℕ}
    → Chain m p xs
    → ((a : ℕ)
        → has a xs ≡ true
        → (is_dirty (g a) ≡ is_dirty (m a)) × (next_of (g a) ≡ next_of (m a)))
    → Chain g p xs
Chain-frame nil same = nil
Chain-frame (cons {p} nz d e out c) same =
    let here = same p (ground arith) in
    cons nz (ground arith) (ground arith) out (Chain-frame c λ a i. same a (ground arith))

pub has-is_dirty :
    {m : Memory} {p : ℕ} {xs : List ℕ}
    → Chain m p xs
    → (a : ℕ) → has a xs ≡ true
    → is_dirty (m a) ≡ true
has-is_dirty nil a h = cc
has-is_dirty (cons nz d e out c) a h = ground (arith, has-is_dirty c a)

-- memory that holds the open poll of `fd`
abbrev pub IsPollOf : ℤ → Option Poll → Type 0
IsPollOf fd none = ⊥
IsPollOf fd (some q) = (q.fd ≡ fd) × (is_open fd ≡ true)

-- no poll keeps the events that it is registered for
abbrev pub IsPlain : Poll → Type 0
IsPlain q = (q.flags.rd ≡ false) × (q.flags.wr ≡ false) × (q.flags.hup ≡ false)

-- what is registered for one side of a descriptor, or NULL
abbrev pub side : Bool → Option Poll → ℕ
side read none = null
side read (some q) = if read then q.rd else q.wr

abbrev pub poll_at : {T : Type 0} → Polls T → Option ℕ → Option Poll
poll_at s none = none
poll_at s (some p) = s.poll p

module _ (k : KHash) where
  -- what holds of an allocated poll
  pub record PollOk (t : k.Table) (xs : List ℕ) (p : ℕ) (q : Poll) : Type 0 where
    pub listed : q.flags.err ≡ true → has p xs ≡ true
    pub found : is_open q.fd ≡ true → k.find t q.fd ≡ some p
    pub closed : is_open q.fd ≡ false → (q.flags.err ≡ true) × (q.rd ≡ null) × (q.wr ≡ null)

  pub record PollInv (s : Polls k.Table) (xs : List ℕ) : Type 0 where
    pub chain : Chain s.poll s.dirty_list xs
    pub null_free : s.poll null ≡ none
    pub each : (p : ℕ) (q : Poll) → s.poll p ≡ some q → PollOk s.pollers xs p q
    pub table : (fd : ℤ) (p : ℕ) → k.find s.pollers fd ≡ some p → IsPollOf fd (s.poll p)

pub held_poll : (fd : ℤ) (o : Option Poll) → IsPollOf fd o → (q : Poll) × (o ≡ some q) × (q.fd ≡ fd)
held_poll fd none h = absurd h
held_poll fd (some q) h = (q, refl, h.0)

-- the dirty list after `p` is marked
abbrev pub marked : ℕ → Option Poll → List ℕ → List ℕ
marked p none xs = xs
marked p (some q) xs = if q.flags.err then xs else p ∷ xs

module _ (k : KHash) {s : Polls k.Table} {xs : List ℕ} (inv : PollInv k s xs) where
  pub not-has : (p : ℕ) (q : Poll) → s.poll p ≡ some q → q.flags.err ≡ false → has p xs ≡ false
  not-has p q e clean = elim (Bool-cases (has p xs)) [
    | inl listed ↦ ground (arith, has-is_dirty inv.chain p listed)
    | inr out ↦ out
  ]

  -- what the watches hold is not part of it
  pub PollInv-data :
      (f d : ℕ → ℕ) (c : List Syscall)
      → PollInv k (record s { watch_fn = f; poll_data = d; calls = c }) xs
  PollInv-data f d c = record {
    chain = inv.chain;
    null_free = inv.null_free;
    each = inv.each;
    table = inv.table;
  }

  -- two descriptors do not share a poll
  pub one_fd : (d j : ℤ) (p : ℕ) → k.find s.pollers d ≡ some p → k.find s.pollers j ≡ some p → d ≡ j
  one_fd d j p f g =
      let (q, e, a) = held_poll d (s.poll p) (inv.table d p f) in
      let (r, h, b) = held_poll j (s.poll p) (inv.table j p g) in
      let same : q ≡ r = ground (arith, e, h) in sym a ∙ ap (λ (x : Poll). x.fd) same ∙ b

  -- nor do two polls share an open descriptor
  pub distinct :
      (a b : ℕ) (q r : Poll)
      → s.poll a ≡ some q
      → s.poll b ≡ some r
      → is_open q.fd ≡ true
      → q.fd ≡ r.fd
      → a ≡ b
  distinct a b q r h i o e =
      let at_a = (inv.each a q h).found o in
      let at_b = (inv.each b r i).found (rw (← e) o) in ground (arith, at_a, at_b)
