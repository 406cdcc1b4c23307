-- ===== src/Keys/Made.antt =====
-- evloop.epoll.c and cthread.c: pthread_once with create_key or do_init, and the values of its key.
use cthread.Base.{
  ℕ, ◌≡◌, ◌≢◌, Bool, true, false, Option, none, some, update, arith, refl, sym, ap, ◌∙◌, inl, inr,
  Bool-cases, ◌==◌, subst,
}
use cthread.Run.{ok, abort, ok-inj}
use cthread.Keys.{Pthreads, OnceKey, create_key, key_once}

module _ (p : Pthreads) where
  -- a key that has been made, with its values, or one that has not
  abbrev pub Kept : p.Values → OnceKey p → Bool → (ℕ → ℕ) → Type 0
  Kept s slot true v =
      (p.is_key s slot.key ≡ true)
      × ((p.enter slot.once).0 ≡ false)
      × ((t : ℕ) → p.get s t slot.key ≡ v t)
  Kept s slot false v = (slot.once ≡ p.once_init) × ((t : ℕ) → v t ≡ 0)

  -- a key is made, and the others keep their values
  pub record Made (s : p.Values) (slot : OnceKey p) (made : Bool) (v : ℕ → ℕ)
      (r : p.Values × OnceKey p) : Type 0 where
    pub kept : Kept r.0 r.1 true v
    keys : (j : ℕ) → p.is_key s j ≡ true → p.is_key r.0 j ≡ true
    gets : (t j : ℕ) → p.is_key s j ≡ true → p.get r.0 t j ≡ p.get s t j
    new : made ≡ false → (j : ℕ) → p.is_key s j ≡ true → r.1.key ≢ j
    old : made ≡ true → r.1.key ≡ slot.key

  key_once-later :
      (s : p.Values) (slot : OnceKey p)
      → (p.enter slot.once).0 ≡ false
      → key_once p s slot ≡ ok (s, record slot { once = (p.enter slot.once).1 })
  unfolding key_once
  key_once-later s slot entered = rw entered refl

  key_once-first :
      (s : p.Values) (slot : OnceKey p)
      → (p.enter slot.once).0 ≡ true
      → key_once p s slot ≡ create_key p s (p.enter slot.once).1
  unfolding key_once
  key_once-first s slot entered = rw entered refl

  create_key-Made :
      (s : p.Values) (slot : OnceKey p) (v : ℕ → ℕ) (r : p.Values × OnceKey p) (c : p.Control)
      (o : Option (ℕ × p.Values))
      → ((t : ℕ) → v t ≡ 0)
      → p.create s ≡ o
      → create_key p s (p.enter c).1 ≡ ok r
      → Made s slot false v r
  unfolding create_key
  create_key-Made s slot v r c none none_yet made ends =
      let failed : abort ≡ ok r = rw (create_key, made) at ends in cc
  create_key-Made s slot v r c (some (k, g)) none_yet made ends =
      let is : (g, record { once = (p.enter c).1; key = k }) ≡ r =
        ok-inj (rw (create_key, made) at ends) in
      let (unused, used, others) = p.create-key s g k made in
      let (zeros, same) = p.create-get s g k made in
      subst (Made s slot false v) is (record {
        kept = (used, p.enter-later c, λ t. zeros t ∙ sym (none_yet t));
        keys = others;
        gets = same;
        new = λ e j h same_key. let clash = ap (p.is_key s) same_key in cc;
        old = λ e. cc;
      })

  pub key_once-Made :
      (s : p.Values) (slot : OnceKey p) (made : Bool) (v : ℕ → ℕ) (r : p.Values × OnceKey p)
      → Kept s slot made v
      → key_once p s slot ≡ ok r
      → Made s slot made v r
  key_once-Made s slot true v r (is_key, entered, values) ends =
      subst (Made s slot true v) (ok-inj (sym (key_once-later s slot entered) ∙ ends)) (record {
        kept = (is_key, p.enter-later slot.once, values);
        keys = λ j h. h;
        gets = λ t j h. refl;
        new = λ e. cc;
        old = λ e. refl;
      })
  key_once-Made s slot false v r (fresh, none_yet) ends =
      let first : (p.enter slot.once).0 ≡ true = rw fresh p.enter-first in
      create_key-Made s slot v r slot.once (p.create s) none_yet refl
        (sym (key_once-first s slot first) ∙ ends)

  pub Kept-key :
      (s : p.Values) (slot : OnceKey p) (b : Bool) (v : ℕ → ℕ)
      → Kept s slot b v
      → b ≡ true
      → p.is_key s slot.key ≡ true
  Kept-key s slot true v (h, entered, values) e = h
  Kept-key s slot false v h e = cc

  pub Kept-get :
      (s : p.Values) (slot : OnceKey p) (b : Bool) (v : ℕ → ℕ)
      → Kept s slot b v
      → b ≡ true
      → (t : ℕ) → p.get s t slot.key ≡ v t
  Kept-get s slot true v (h, entered, values) e = values
  Kept-get s slot false v h e = cc

  pub Kept-frame :
      (s g : p.Values) (slot : OnceKey p) (b : Bool) (v : ℕ → ℕ)
      → Kept s slot b v
      → (b ≡ true → p.is_key g slot.key ≡ true)
      → (b ≡ true → (t : ℕ) → p.get g t slot.key ≡ p.get s t slot.key)
      → Kept g slot b v
  Kept-frame s g slot true v (h, entered, values) keys gets =
      (keys refl, entered, λ t. gets refl t ∙ values t)
  Kept-frame s g slot false v h keys gets = h

  -- a value of one thread is set
  pub Kept-set :
      (s : p.Values) (slot : OnceKey p) (v : ℕ → ℕ) (t x : ℕ)
      → Kept s slot true v
      → Kept (p.set s t slot.key x) slot true (update v t x)
  Kept-set s slot v t x (h, entered, values) = (
    p.set-key s t slot.key x slot.key ∙ h,
    entered,
    λ u. elim (Bool-cases (t == u)) [
      | inl same ↦ let t_u : t ≡ u = ground arith in rw (same, ← t_u) (p.set-same s t slot.key x h)
      | inr other ↦ rw other (p.set-other s t slot.key x u slot.key (inl (ground arith)) ∙ values u)
    ],
  )

  -- setting a value of another key
  pub Kept-other :
      (s : p.Values) (slot : OnceKey p) (b : Bool) (v : ℕ → ℕ) (t k x : ℕ)
      → Kept s slot b v
      → (b ≡ true → k ≢ slot.key)
      → Kept (p.set s t k x) slot b v
  Kept-other s slot b v t k x h ne =
      Kept-frame s (p.set s t k x) slot b v h
        (λ e. p.set-key s t k x slot.key ∙ Kept-key s slot b v h e)
        (λ e u. p.set-other s t k x u slot.key (inr (ne e)))

  module _ (s : p.Values) (mine other : OnceKey p) (made : Bool) (v : ℕ → ℕ) (b : Bool) (w : ℕ → ℕ)
      (r : p.Values × OnceKey p) (h : Kept s other b w) (m : Made s mine made v r)
      (apart : made ≡ true → b ≡ true → mine.key ≢ other.key) where
    pub apart_after : b ≡ true → r.1.key ≢ other.key
    apart_after e = elim (Bool-cases made) [
      | inl yes_made ↦ λ same. apart yes_made e (sym (m.old yes_made) ∙ same)
      | inr not_made ↦ m.new not_made other.key (Kept-key s other b w h e)
    ]

    pub other_after : Kept r.0 other b w
    other_after =
        Kept-frame s r.0 other b w h (λ e. m.keys other.key (Kept-key s other b w h e))
          (λ e t. m.gets t other.key (Kept-key s other b w h e))
