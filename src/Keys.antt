-- ===== src/Keys.antt =====
-- evloop.epoll.c and cthread.c: the event loop and the current thread of each thread of the system, which
-- are its values of two keys. `Keys` has the two keys with their `pthread_once_t`, and the values of all
-- keys. A thread of the system is a number. The functions of pthread are the parameter `Pthreads`.
pub mod Made
pub mod Owners
use cthread.Base.{ℕ, ◌≡◌, ◌≢◌, ◌⊎◌, Bool, true, false, Option, none, some, if◌then◌else◌}
use cthread.Run.{Run, ok, abort, ◌>>=◌}

-- POSIX threads, as documented: `enter` is what pthread_once asks of its first argument, whether the
-- function is to be called, and leaves there; `create` is pthread_key_create, which makes a new key with
-- the value NULL in all threads, or fails; `get` and `set` are pthread_getspecific and
-- pthread_setspecific in a thread.
pub record Pthreads : Type 1 where
  pub Control : Type 0
  pub Values : Type 0
  pub once_init : Control
  pub enter : Control → Bool × Control
  pub enter-first : (enter once_init).0 ≡ true
  pub enter-later : (c : Control) → (enter (enter c).1).0 ≡ false
  pub is_key : Values → ℕ → Bool
  pub create : Values → Option (ℕ × Values)
  pub get : Values → ℕ → ℕ → ℕ
  pub set : Values → ℕ → ℕ → ℕ → Values
  pub create-key :
      (s g : Values) (k : ℕ)
      → create s ≡ some (k, g)
      → (is_key s k ≡ false)
        × (is_key g k ≡ true)
        × ((j : ℕ) → is_key s j ≡ true → is_key g j ≡ true)
  pub create-get :
      (s g : Values) (k : ℕ)
      → create s ≡ some (k, g)
      → ((t : ℕ) → get g t k ≡ 0) × ((t j : ℕ) → is_key s j ≡ true → get g t j ≡ get s t j)
  pub set-same : (s : Values) (t k x : ℕ) → is_key s k ≡ true → get (set s t k x) t k ≡ x
  pub set-other :
      (s : Values) (t k x u j : ℕ) → (t ≢ u) ⊎ (k ≢ j) → get (set s t k x) u j ≡ get s u j
  pub set-key : (s : Values) (t k x j : ℕ) → is_key (set s t k x) j ≡ is_key s j

module _ (p : Pthreads) where
  -- a `pthread_key_t` and its `pthread_once_t`
  pub record OnceKey : Type 0 where
    pub once : p.Control
    pub key : ℕ

  pub record Keys : Type 0 where
    pub values : p.Values
    pub evloop : OnceKey
    pub cthread : OnceKey

  -- create_key and do_init
  unfoldable pub create_key : p.Values → p.Control → Run (p.Values × OnceKey)
  create_key s once = elim (p.create s) [
    | none ↦ abort
    | some (k, g) ↦ ok (g, record { once = once; key = k })
  ]

  -- pthread_once with one of them
  unfoldable pub key_once : p.Values → OnceKey → Run (p.Values × OnceKey)
  key_once s slot =
      let (first, once) = p.enter slot.once in
      if first then create_key s once else ok (s, record slot { once = once })

  -- evloop_init for the keys, in the thread `t`
  unfoldable pub own_evloop : ℕ → ℕ → Keys → Run Keys
  own_evloop t e s = do
    (values, slot) ← key_once s.values s.evloop
    ok (record s { values = p.set values t slot.key e; evloop = slot })

  unfoldable pub evloop_get : ℕ → Keys → ℕ
  evloop_get t s = p.get s.values t s.evloop.key

  -- create_tls_key, called by cthread_main_init
  unfoldable pub own_cthread : Keys → Run Keys
  own_cthread s = do
    (values, slot) ← key_once s.values s.cthread
    ok (record s { values = values; cthread = slot })

  -- set_thread and cthread_self, in the thread `t`
  unfoldable pub set_current : ℕ → ℕ → Keys → Keys
  set_current t c s = record s { values = p.set s.values t s.cthread.key c }

  unfoldable pub current : ℕ → Keys → ℕ
  current t s = p.get s.values t s.cthread.key
