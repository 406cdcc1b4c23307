-- ===== src/Tls/Once.antt =====
-- tls.c: the key is made once, before any thread returns.
use cthread.Base.{
  ℕ, ◌||◌, Bool, true, false, List, [], ◌∷◌, Option, none, some, ◌≡◌, ◌≢◌, ◌≤◌, ◌==◌, subst, refl,
  arith, Bool-cases, inl, inr,
}
use cthread.Run.{Run, ok, abort, fault, ◌>>=◌}
use cthread.Tls.{
  Place, entering, making, publishing, spinning, returned, World, act, create_tls_key, fresh,
}

abbrev pub is_entering : Place → Bool
is_entering entering = true
is_entering making = false
is_entering publishing = false
is_entering spinning = false
is_entering returned = false

abbrev pub is_spinning : Place → Bool
is_spinning entering = false
is_spinning making = false
is_spinning publishing = false
is_spinning spinning = true
is_spinning returned = false

abbrev pub is_returned : Place → Bool
is_returned entering = false
is_returned making = false
is_returned publishing = false
is_returned spinning = false
is_returned returned = true

abbrev pub is_some : Option ℕ → Bool
is_some none = false
is_some (some k) = true

-- what holds in each stage: no thread has entered; the thread `o` makes the key; it has made it; it
-- has published it
pub data Stage (w : World) : Type 0 where
  untouched : w.once ≡ 0 → w.made ≡ 0 → ((t : ℕ) → w.place t ≡ entering) → Stage w
  claimed :
      (o : ℕ)
      → w.once ≡ 1
      → w.made ≡ 0
      → w.place o ≡ making
      → ((t : ℕ) → t ≢ o → (is_entering (w.place t) || is_spinning (w.place t)) ≡ true)
      → Stage w
  held :
      (o : ℕ)
      → w.once ≡ 1
      → w.made ≡ 1
      → is_some w.key ≡ true
      → w.place o ≡ publishing
      → ((t : ℕ) → t ≢ o → (is_entering (w.place t) || is_spinning (w.place t)) ≡ true)
      → Stage w
  published :
      w.once ≡ 2
      → w.made ≡ 1
      → is_some w.key ≡ true
      → ((t : ℕ)
          → (is_entering (w.place t) || is_spinning (w.place t) || is_returned (w.place t)) ≡ true)
      → Stage w

-- what a call returns, if it returns
abbrev pub Every : (World → Type 0) → Run World → Type 0
Every P fault = Unit
Every P abort = Unit
Every P (ok w) = P w

entering-Stage :
    (new : Option ℕ) (t : ℕ) (w : World)
    → w.place t ≡ entering
    → Stage w
    → Every Stage (act new t w entering)
unfolding act
entering-Stage new t w h (untouched a b c) =
    let first : (w.once == 0) ≡ true = ground arith in
    rw first (claimed t refl b (ground arith) λ u n. ground (arith, c u))
entering-Stage new t w h (claimed o a b c d) =
    let later : (w.once == 0) ≡ false = ground arith in
    rw later (claimed o a b (ground arith) λ u n. ground (arith, d u n))
entering-Stage new t w h (held o a b k c d) =
    let later : (w.once == 0) ≡ false = ground arith in
    rw later (held o a b k (ground arith) λ u n. ground (arith, d u n))
entering-Stage new t w h (published a b k d) =
    let later : (w.once == 0) ≡ false = ground arith in
    rw later (published a b k λ u. ground (arith, d u))

making-Stage :
    (new : Option ℕ) (t : ℕ) (w : World)
    → w.place t ≡ making
    → Stage w
    → Every Stage (act new t w making)
unfolding act
making-Stage none t w h s = tt
making-Stage (some k) t w h (untouched a b c) = absurd (ground (arith, c t))
making-Stage (some k) t w h (claimed o a b c d) = elim (Bool-cases (t == o)) [
  | inl own ↦ held t a (ground arith) refl (ground arith) λ u n. ground (arith, d u)
  | inr other ↦ absurd (ground (arith, d t))
]
making-Stage (some k) t w h (held o a b m c d) = absurd (ground (arith, d t))
making-Stage (some k) t w h (published a b m d) = absurd (ground (arith, d t))

publishing-Stage :
    (new : Option ℕ) (t : ℕ) (w : World)
    → w.place t ≡ publishing
    → Stage w
    → Every Stage (act new t w publishing)
unfolding act
publishing-Stage new t w h (untouched a b c) = absurd (ground (arith, c t))
publishing-Stage new t w h (claimed o a b c d) = absurd (ground (arith, d t))
publishing-Stage new t w h (held o a b m c d) = published refl b m λ u. ground (arith, d t, d u)
publishing-Stage new t w h (published a b m d) = absurd (ground (arith, d t))

spinning-Stage :
    (new : Option ℕ) (t : ℕ) (w : World)
    → w.place t ≡ spinning
    → Stage w
    → Every Stage (act new t w spinning)
unfolding act
spinning-Stage new t w h (untouched a b c) = absurd (ground (arith, c t))
spinning-Stage new t w h (claimed o a b c d) =
    let busy : (w.once == 1) ≡ true = ground arith in rw busy (claimed o a b c d)
spinning-Stage new t w h (held o a b m c d) =
    let busy : (w.once == 1) ≡ true = ground arith in rw busy (held o a b m c d)
spinning-Stage new t w h (published a b m d) =
    let done : (w.once == 1) ≡ false = ground arith in
    rw done (published a b m λ u. ground (arith, d u))

act-Stage :
    (new : Option ℕ) (t : ℕ) (w : World) (p : Place)
    → w.place t ≡ p
    → Stage w
    → Every Stage (act new t w p)
unfolding act
act-Stage new t w entering h s = entering-Stage new t w h s
act-Stage new t w making h s = making-Stage new t w h s
act-Stage new t w publishing h s = publishing-Stage new t w h s
act-Stage new t w spinning h s = spinning-Stage new t w h s
act-Stage new t w returned h s = s

Every-bind :
    (P Q : World → Type 0) (r : Run World) (next : World → Run World)
    → Every P r
    → ((w : World) → P w → Every Q (next w))
    → Every Q (r >>= next)
Every-bind P Q fault next h f = tt
Every-bind P Q abort next h f = tt
Every-bind P Q (ok w) next h f = f w h

schedule-Stage :
    (steps : List (ℕ × Option ℕ)) (w : World) → Stage w → Every Stage (create_tls_key steps w)
unfolding create_tls_key
schedule-Stage [] w s = s
schedule-Stage ((t, new) ∷ rest) w s =
    Every-bind Stage Stage (act new t w (w.place t)) (create_tls_key rest)
      (act-Stage new t w (w.place t) refl s) λ v r. schedule-Stage rest v r

at_most : {w : World} → Stage w → w.made ≤ 1
at_most (untouched a b c) = omega arith
at_most (claimed o a b c d) = omega arith
at_most (held o a b k c d) = omega arith
at_most (published a b k d) = omega arith

after_return :
    {w : World} (t : ℕ)
    → Stage w
    → is_returned (w.place t) ≡ true
    → (w.once ≡ 2) × (w.made ≡ 1) × (is_some w.key ≡ true)
after_return t (untouched a b c) r = absurd (ground (arith, c t))
after_return t (claimed o a b c d) r = absurd (ground (arith, d t))
after_return t (held o a b k c d) r = absurd (ground (arith, d t))
after_return t (published a b k d) r = (a, b, k)

reached : (steps : List (ℕ × Option ℕ)) (w : World) → create_tls_key steps fresh ≡ ok w → Stage w
reached steps w e =
    subst (Every Stage) e (schedule-Stage steps fresh (untouched refl refl λ t. refl))

-- For every schedule of any number of threads from the start, at most one key is made.
pub create_tls_key-once :
    (steps : List (ℕ × Option ℕ)) (w : World) → create_tls_key steps fresh ≡ ok w → w.made ≤ 1
create_tls_key-once steps w e = at_most (reached steps w e)

-- For every schedule of any number of threads from the start, in a state in which some thread has
-- returned, one key has been made, `*pkey` holds a key, and `*ponce` is 2.
pub create_tls_key-returned :
    (steps : List (ℕ × Option ℕ)) (w : World) (t : ℕ)
    → create_tls_key steps fresh ≡ ok w
    → is_returned (w.place t) ≡ true
    → (w.once ≡ 2) × (w.made ≡ 1) × (is_some w.key ≡ true)
create_tls_key-returned steps w t e r = after_return t (reached steps w e) r
