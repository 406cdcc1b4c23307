-- ===== src/Poll/Obtain.antt =====
-- evloop.epoll.c: the part of ev_watch that finds or makes the poll of a descriptor.
use cthread.Base.{
  ℕ, Bool, true, false, List, Option, none, some, ◌≡◌, ◌≢◌, ◌==◌, refl, arith, ◌⊎◌, if◌then◌else◌,
  Bool-cases, inl, inr, sym, subst, ◌∙◌,
}
use cthread.Word.{ℤ, eq_int, eq_int-eq, eq_int_refl}
use cthread.Run.{Returns, returns}
use cthread.Poll.{null, Poll, Polls, KHash, is_open, no_bits, obtain}
use cthread.Poll.Inv.{has-is_dirty, Chain-frame, side, poll_at, PollInv, IsPollOf}

-- what obtain returns: the poll of `fd`, with the watches that it had
pub record Obtained (k : KHash) (s : Polls k.Table) (xs : List ℕ) (fd : ℤ) (r : Polls k.Table × ℕ)
    : Type 0 where
  pub inv : PollInv k r.0 xs
  pub found : k.find r.0.pollers fd ≡ some r.1
  pub node : Poll
  pub here : r.0.poll r.1 ≡ some node
  pub fd_eq : node.fd ≡ fd
  pub open_fd : is_open fd ≡ true
  pub sides : (read : Bool) → side read (some node) ≡ side read (poll_at s (k.find s.pollers fd))
  pub watch_fn : r.0.watch_fn ≡ s.watch_fn
  pub poll_data : r.0.poll_data ≡ s.poll_data
  pub calls : r.0.calls ≡ s.calls
  pub others : (a : ℕ) → r.1 ≢ a → r.0.poll a ≡ s.poll a
  pub finds :
      (j : ℤ) → k.find r.0.pollers j ≡ (if eq_int fd j then some r.1 else k.find s.pollers j)
  pub origin :
      ((s.poll r.1 ≡ some node) × (k.find s.pollers fd ≡ some r.1))
      ⊎ ((s.poll r.1 ≡ none) × (k.find s.pollers fd ≡ none) × (node.flags ≡ no_bits))

find-same :
    (k : KHash) (s : Polls k.Table) (fd : ℤ) (p : ℕ)
    → k.find s.pollers fd ≡ some p
    → (j : ℤ) → k.find s.pollers j ≡ (if eq_int fd j then some p else k.find s.pollers j)
find-same k s fd p f j = elim (Bool-cases (eq_int fd j)) [
  | inl hit ↦ rw (hit, ← eq_int-eq fd j hit) f
  | inr miss ↦ rw miss refl
]

module _ (k : KHash) {s : Polls k.Table} {xs : List ℕ} (inv : PollInv k s xs) (fresh : ℕ)
    (fd : ℤ) where
  obtain-old :
      (p : ℕ) (o : Option Poll)
      → k.find s.pollers fd ≡ some p
      → s.poll p ≡ o
      → IsPollOf fd o
      → Returns (Obtained k s xs fd) (obtain k fresh fd s)
  unfolding obtain
  obtain-old p none f e h = absurd h
  obtain-old p (some q) f e h =
      let (made, at, same) = k.put-some s.pollers fd p f in
      rw (made, at)
        (returns (record {
          inv = record {
            chain = inv.chain;
            null_free = inv.null_free;
            each = λ a r g. record {
              listed = (inv.each a r g).listed;
              found = λ u. same r.fd ∙ (inv.each a r g).found u;
              closed = (inv.each a r g).closed;
            };
            table = λ j a g. inv.table j a (sym (same j) ∙ g);
          };
          found = same fd ∙ f;
          node = q;
          here = e;
          fd_eq = h.0;
          open_fd = h.1;
          sides = λ read. rw (f, poll_at, e);
          watch_fn = refl;
          poll_data = refl;
          calls = refl;
          others = λ a ne. refl;
          finds = λ j. same j ∙ find-same k s fd p f j;
          origin = inl (e, f);
        }))

  obtain-new :
      k.find s.pollers fd ≡ none
      → is_open fd ≡ true
      → fresh ≢ null
      → s.poll fresh ≡ none
      → Returns (Obtained k s xs fd) (obtain k fresh fd s)
  unfolding obtain
  obtain-new f o nz unused =
      let (made, at, finds) = k.put-none s.pollers fd f in
      let some_block : (fresh == null) ≡ false = ground arith in
      let refl_fd = eq_int_refl fd in
      rw (made, some_block, at fresh)
        (returns (record {
          inv = record {
            chain = Chain-frame inv.chain λ a i. ground (arith, has-is_dirty inv.chain a i);
            null_free = ground (arith, inv.null_free);
            each = λ a r g. elim (Bool-cases (fresh == a)) [
              | inl same ↦
                  let a_fresh : a ≡ fresh = ground arith in
                  let r_fd : r.fd ≡ fd = ground arith in
                  record {
                    listed = λ d. ground arith;
                    found = λ u. rw (r_fd, a_fresh, finds fresh fd, refl_fd);
                    closed = λ u. ground arith;
                  }
              | inr other ↦
                  let before : s.poll a ≡ some r = ground arith in
                  let ok_a = inv.each a r before in
                  record {
                    listed = ok_a.listed;
                    found = λ u.
                        let old = ok_a.found u in
                        ground (arith, finds fresh r.fd, eq_int-eq fd r.fd, old, f);
                    closed = ok_a.closed;
                  }
            ];
            table = λ j a g. elim (Bool-cases (eq_int fd j)) [
              | inl hit ↦ ground (arith, finds fresh j, eq_int-eq fd j, hit)
              | inr miss ↦
                  let old : k.find s.pollers j ≡ some a = ground (arith, finds fresh j) in
                  let held = inv.table j a old in
                  elim (Bool-cases (fresh == a)) [
                    | inl same ↦
                        let gone : s.poll a ≡ none = ground arith in
                        absurd (subst (IsPollOf j) gone held)
                    | inr other ↦ ground arith
                  ]
            ];
          };
          found = rw (finds fresh fd, refl_fd);
          node = record { next = null; rd = null; wr = null; fd = fd; flags = no_bits };
          here = ground arith;
          fd_eq = refl;
          open_fd = o;
          sides = λ read. rw (f, poll_at) (ground arith);
          watch_fn = refl;
          poll_data = refl;
          calls = refl;
          others = λ a ne. ground arith;
          finds = finds fresh;
          origin = inr (unused, f, refl);
        }))

  pub obtain-lem :
      is_open fd ≡ true
      → fresh ≢ null
      → s.poll fresh ≡ none
      → (f : Option ℕ) → k.find s.pollers fd ≡ f
      → Returns (Obtained k s xs fd) (obtain k fresh fd s)
  obtain-lem o nz unused none e = obtain-new e o nz unused
  obtain-lem o nz unused (some p) e = obtain-old p (s.poll p) e refl (inv.table fd p e)
