-- ===== src/Poll/Sync.antt =====
-- evloop.epoll.c: what the kernel knows of all descriptors after the loop over the dirty list.
use cthread.Base.{
  has, length, ℕ, zero, suc, ◌<◌, true, false, ◌||◌, none, List, [], ◌∷◌, some, ◌≡◌, ◌==◌, ◌≢◌,
  refl, arith, Bool-cases, inl, inr, sym, ap, ◌∙◌,
}
use cthread.Word.{ℤ, eq_int, eq_int-eq}
use cthread.Run.{Returns, returns, Returns-bind}
use cthread.Poll.{
  null, Poll, Polls, is_open, any_bits, wanted, load_poll, set_poll, tell, flush_loop, flush,
}
use cthread.Poll.Inv.{IsPlain, Chain, nil, cons, Chain-frame}
use cthread.Poll.Flush.{swept-open, swept-fd, swept, cleaned, visited, tell-poll}
use cthread.Poll.Kernel.{
  Epoll, asked, is_some, Told, tell-other, tell-closed, tell-idle, tell-wanted,
}

module _ (e : Epoll) {T : Type 0} where
  open e use {interest}

  module _ (s : Polls T) (p : ℕ) (q : Poll) (xs : List ℕ) (held : s.poll p ≡ some q)
      (t : Told e s (p ∷ xs)) where
    abbrev round : Polls T
    round = tell p (cleaned q) (set_poll s p (cleaned q))

    origin :
        (a : ℕ) (b : Poll)
        → round.poll a ≡ some b
        → (r : Poll) × (s.poll a ≡ some r)
          × (b.fd ≡ r.fd)
          × (b.flags.rd ≡ r.flags.rd)
          × (b.flags.wr ≡ r.flags.wr)
          × (b.flags.hup ≡ r.flags.hup)
    origin a b h = elim (Bool-cases (p == a)) [
      | inl here ↦
          let at : swept (some q) ≡ some b = ground (arith, tell-poll s p a q) in
          (q, ground arith, ground arith, ground arith, ground arith, ground arith)
      | inr there ↦ (b, ground (arith, tell-poll s p a q), refl, refl, refl, refl)
    ]

    at_p :
        (a : ℕ) (b : Poll)
        → (p == a) ≡ true
        → round.poll a ≡ some b
        → (is_open q.fd ≡ true)
          × (b.fd ≡ q.fd)
          × (b.flags.et ≡ (q.flags.et || any_bits (wanted q)))
          × (b.rd ≡ q.rd)
          × (b.wr ≡ q.wr)
    at_p a b here h =
        let at : swept (some q) ≡ some b = ground (arith, tell-poll s p a q) in
        (ground arith, ground arith, ground arith, ground arith, ground arith)

    kept :
        (a : ℕ) (b : Poll)
        → (p == a) ≡ false
        → s.poll a ≡ some b
        → interest round.calls b.fd ≡ interest s.calls b.fd
    kept a b there h = elim (Bool-cases (is_open q.fd)) [
      | inr closed ↦
          ap (λ c. interest c b.fd) (tell-closed e (set_poll s p (cleaned q)) p (cleaned q) closed)
      | inl open_fd ↦ elim (Bool-cases (eq_int q.fd b.fd)) [
        | inr ne ↦ tell-other e (set_poll s p (cleaned q)) p (cleaned q) b.fd ne
        | inl same ↦
            let eq : p ≡ a = t.distinct p a q b held h open_fd (eq_int-eq q.fd b.fd same) in
            absurd (ground arith)
      ]
    ]

    p-IsPlain : IsPlain q
    p-IsPlain = t.plain p q held

    after_p :
        is_open q.fd ≡ true
        → is_some (interest round.calls q.fd) ≡ (q.flags.et || any_bits (wanted q))
    after_p o = elim (Bool-cases (any_bits (wanted q))) [
      | inl some_bits ↦
          let got =
            tell-wanted e (set_poll s p (cleaned q)) p (cleaned q) o p-IsPlain (t.known p q held o)
              some_bits in
          ground (arith, ap is_some got)
      | inr no_bits_wanted ↦
          let same =
            tell-idle e (set_poll s p (cleaned q)) p (cleaned q) p-IsPlain no_bits_wanted in
          ground (arith, ap (λ c. is_some (interest c q.fd)) same, t.known p q held o)
    ]

    known_after :
        (a : ℕ) (b : Poll)
        → round.poll a ≡ some b
        → is_open b.fd ≡ true
        → is_some (interest round.calls b.fd) ≡ b.flags.et
    known_after a b h o = elim (Bool-cases (p == a)) [
      | inl here ↦
          let (open_q, fd, et, rd, wr) = at_p a b here h in
          ap (λ d. is_some (interest round.calls d)) fd ∙ after_p open_q ∙ sym et
      | inr there ↦
          let held_a : s.poll a ≡ some b = ground (arith, tell-poll s p a q) in
          ap is_some (kept a b there held_a) ∙ t.known a b held_a o
    ]

    synced_after :
        (a : ℕ) (b : Poll)
        → round.poll a ≡ some b
        → has a xs ≡ false
        → is_open b.fd ≡ true
        → any_bits (wanted b) ≡ true
        → interest round.calls b.fd ≡ some (asked b a)
    synced_after a b h out o w = elim (Bool-cases (p == a)) [
      | inl here ↦
          let (open_q, fd, et, rd, wr) = at_p a b here h in
          let eq : p ≡ a = ground arith in
          let some_bits : any_bits (wanted q) ≡ true = ground arith in
          let got =
            tell-wanted e (set_poll s p (cleaned q)) p (cleaned q) open_q p-IsPlain
              (t.known p q held open_q) some_bits in
          ap (interest round.calls) fd ∙ got ∙ ground arith
      | inr there ↦
          let held_a : s.poll a ≡ some b = ground (arith, tell-poll s p a q) in
          kept a b there held_a ∙ t.synced a b held_a (ground arith) o w
    ]

    unknown_after :
        (j : ℤ)
        → is_open j ≡ true
        → ((a : ℕ) (b : Poll) → round.poll a ≡ some b → b.fd ≢ j)
        → interest round.calls j ≡ none
    unknown_after j o nobody =
        let before : (a : ℕ) (b : Poll) → s.poll a ≡ some b → b.fd ≢ j = λ a b h same.
          elim (Bool-cases (p == a)) [
            | inl here ↦
                let q_b : q ≡ b = ground (arith, held, h) in
                let open_q : is_open q.fd ≡ true = rw (q_b, same) o in
                let (r, e) = swept-open q open_q in
                nobody p r (tell-poll s p p q ∙ ground (arith, e)) (ground (arith, swept-fd q r e))
            | inr there ↦ nobody a b (ground (arith, tell-poll s p a q)) same
          ] in
        let strange = t.unknown j o before in
        elim (Bool-cases (is_open q.fd)) [
          | inr closed ↦
              ap (λ c. interest c j) (tell-closed e (set_poll s p (cleaned q)) p (cleaned q) closed)
              ∙ strange
          | inl open_fd ↦ elim (Bool-cases (eq_int q.fd j)) [
            | inr ne ↦ tell-other e (set_poll s p (cleaned q)) p (cleaned q) j ne ∙ strange
            | inl same ↦ absurd (before p q held (eq_int-eq q.fd j same))
          ]
        ]

    -- One round of the loop takes its poll off `xs`.
    pub tell-Told : Told e round xs
    tell-Told = record {
      distinct = λ a b q1 q2 h1 h2 o e.
          let (r1, s1, f1, x1, y1, z1) = origin a q1 h1 in
          let (r2, s2, f2, x2, y2, z2) = origin b q2 h2 in
          t.distinct a b r1 r2 s1 s2 (rw (← f1) o) (sym f1 ∙ e ∙ f2);
      plain = λ a b h.
          let (r, held_a, fd, rd, wr, hup) = origin a b h in
          let (x, y, z) = t.plain a r held_a in (rd ∙ x, wr ∙ y, hup ∙ z);
      known = known_after;
      synced = synced_after;
      unknown = unknown_after;
    }

  flush_loop-Told :
      (k p : ℕ) (s : Polls T) (xs : List ℕ)
      → length xs < k
      → Chain s.poll p xs
      → Told e s xs
      → Returns (λ g. Told e g []) (flush_loop k p s)
  unfolding flush_loop load_poll
  flush_loop-Told zero p s xs f c t = absurd (omega arith)
  flush_loop-Told (suc k) p s _ f nil t = returns t
  flush_loop-Told (suc k) p s _ f (cons {n} {xs} nz d e out c) t =
      let (q, held) = visited (s.poll p) d in
      let some_poll : (p == null) ≡ false = ground arith in
      let next : q.next ≡ n = ground arith in
      let g : Polls T = tell p (cleaned q) (set_poll s p (cleaned q)) in
      let spared : Chain g.poll n xs = Chain-frame c λ a i. ground (arith, tell-poll s p a q) in
      rw (some_poll, load_poll, held, next)
        (flush_loop-Told k n g xs (omega arith) spared (tell-Told s p q xs held t))

  -- Let the dirty list of a state run through `xs`, with more fuel than it has polls, and
  -- let the kernel know the polls with a watch outside the list (`Told`). After the loop the kernel knows every open poll:
  -- the open descriptors that are registered are those of the polls with the flag EPOLLET, and each open
  -- poll with a watch is registered for exactly the events that its watches want, edge triggered, with
  -- its own address.
  pub flush-Told :
      (fuel : ℕ) (s : Polls T) (xs : List ℕ)
      → length xs < fuel
      → Chain s.poll s.dirty_list xs
      → Told e s xs
      → Returns (λ g. Told e g []) (flush fuel s)
  unfolding flush
  flush-Told fuel s xs f c t = Returns-bind (flush_loop-Told fuel s.dirty_list s xs f c t) λ g r.
      returns (record {
        distinct = r.distinct;
        plain = r.plain;
        known = r.known;
        synced = r.synced;
        unknown = r.unknown;
      })
