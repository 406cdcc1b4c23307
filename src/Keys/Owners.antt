-- ===== src/Keys/Owners.antt =====
-- evloop.epoll.c and cthread.c: each thread of the system has its own event loop and current thread.
use cthread.Base.{ℕ, ◌≡◌, ◌≢◌, Bool, true, false, update, refl, sym, subst}
use cthread.Run.{Run, ok, ok-inj, bind-inv}
use cthread.Keys.Made.{
  Kept, key_once-Made, Kept-get, Kept-set, Kept-other, apart_after, other_after,
}
use cthread.Keys.{
  Pthreads, Keys, key_once, own_evloop, evloop_get, own_cthread, set_current, current,
}

-- what the threads have done: whether each key has been made, and the last value of each thread
pub record Owners : Type 0 where
  pub looped : Bool
  pub loop : ℕ → ℕ
  pub started : Bool
  pub thread : ℕ → ℕ

abbrev pub nobody : Owners
nobody = record { looped = false; loop = λ t. 0; started = false; thread = λ t. 0 }

-- the calls of the thread `t`: evloop_init, cthread_main_init, and set_thread
pub data Op : Type 0 where
  inits_loop : ℕ → ℕ → Op
  inits_main : Op
  sets_thread : ℕ → ℕ → Op

abbrev pub after : Op → Owners → Owners
after (inits_loop t e) v = record v { looped = true; loop = update v.loop t e }
after inits_main v = record v { started = true }
after (sets_thread t c) v = record v { thread = update v.thread t c }

-- a thread becomes current after cthread_main_init
abbrev pub Allowed : Op → Owners → Type 0
Allowed (inits_loop t e) v = Unit
Allowed inits_main v = Unit
Allowed (sets_thread t c) v = v.started ≡ true

module _ (p : Pthreads) where
  abbrev pub perform : Op → Keys p → Run (Keys p)
  perform (inits_loop t e) s = own_evloop p t e s
  perform inits_main s = own_cthread p s
  perform (sets_thread t c) s = ok (set_current p t c s)

  pub record Holds (s : Keys p) (v : Owners) : Type 0 where
    pub loops : Kept p s.values s.evloop v.looped v.loop
    pub threads : Kept p s.values s.cthread v.started v.thread
    pub apart : v.looped ≡ true → v.started ≡ true → s.evloop.key ≢ s.cthread.key

  inits_loop-Holds :
      (t e : ℕ) (s g : Keys p) (v : Owners)
      → Holds s v
      → own_evloop p t e s ≡ ok g
      → Holds g (after (inits_loop t e) v)
  unfolding own_evloop
  inits_loop-Holds t e s g v h ends =
      let (r, made, is) = bind-inv (key_once p s.values s.evloop) _ g ends in
      let m = key_once-Made p s.values s.evloop v.looped v.loop r h.loops made in
      let ne =
        apart_after p s.values s.evloop s.cthread v.looped v.loop v.started v.thread r h.threads m
          h.apart in
      let kept =
        other_after p s.values s.evloop s.cthread v.looped v.loop v.started v.thread r h.threads m
          h.apart in
      subst (λ x. Holds x (after (inits_loop t e) v)) (ok-inj is)
        (record {
          loops = Kept-set p r.0 r.1 v.loop t e m.kept;
          threads = Kept-other p r.0 s.cthread v.started v.thread t r.1.key e kept ne;
          apart = λ x y. ne y;
        })

  inits_main-Holds :
      (s g : Keys p) (v : Owners)
      → Holds s v
      → own_cthread p s ≡ ok g
      → Holds g (after inits_main v)
  unfolding own_cthread
  inits_main-Holds s g v h ends =
      let (r, made, is) = bind-inv (key_once p s.values s.cthread) _ g ends in
      let m = key_once-Made p s.values s.cthread v.started v.thread r h.threads made in
      let flipped : v.started ≡ true → v.looped ≡ true → s.cthread.key ≢ s.evloop.key =
        λ x y same. h.apart y x (sym same) in
      let ne =
        apart_after p s.values s.cthread s.evloop v.started v.thread v.looped v.loop r h.loops m
          flipped in
      let kept =
        other_after p s.values s.cthread s.evloop v.started v.thread v.looped v.loop r h.loops m
          flipped in
      subst (λ x. Holds x (after inits_main v)) (ok-inj is)
        (record { loops = kept; threads = m.kept; apart = λ x y same. ne x (sym same) })

  perform-Holds :
      (op : Op) (s g : Keys p) (v : Owners)
      → Holds s v
      → Allowed op v
      → perform op s ≡ ok g
      → Holds g (after op v)
  unfolding set_current
  perform-Holds (inits_loop t e) s g v h u ends = inits_loop-Holds t e s g v h ends
  perform-Holds inits_main s g v h u ends = inits_main-Holds s g v h ends
  perform-Holds (sets_thread t c) s g v h started ends =
      let values : p.Values = p.set s.values t s.cthread.key c in
      let kept : Kept p values s.cthread true (update v.thread t c) =
        Kept-set p s.values s.cthread v.thread t c
          (subst (λ b. Kept p s.values s.cthread b v.thread) started h.threads) in
      subst (λ x. Holds x (after (sets_thread t c) v)) (ok-inj ends)
        (record {
          loops =
              Kept-other p s.values s.evloop v.looped v.loop t s.cthread.key c h.loops
                (λ e same. h.apart e started (sym same));
          threads = subst (λ b. Kept p values s.cthread b (update v.thread t c)) (sym started) kept;
          apart = h.apart;
        })

  -- the states that are reached from `s0` by calls of any threads, in any order
  pub data Reached (s0 : Keys p) : Keys p → Owners → Type 0 where
    at_start : Reached s0 s0 nobody
    performs :
        {s g : Keys p} {v : Owners}
        → Reached s0 s v
        → (op : Op) → Allowed op v
        → perform op s ≡ ok g
        → Reached s0 g (after op v)

  Reached-Holds :
      (s0 : Keys p)
      → s0.evloop.once ≡ p.once_init
      → s0.cthread.once ≡ p.once_init
      → (s : Keys p) (v : Owners) → Reached s0 s v
      → Holds s v
  Reached-Holds s0 a b _ _ at_start = record {
    loops = (a, λ t. refl);
    threads = (b, λ t. refl);
    apart = λ e. cc;
  }
  Reached-Holds s0 a b g _ (performs {s} {v} r op allowed ends) =
      perform-Holds op s g v (Reached-Holds s0 a b s v r) allowed ends

  -- Let threads of the system, in any order, call evloop_init and cthread_main_init and set their
  -- current threads. Once both keys have been made, evloop_get and cthread_self in a thread of the system
  -- give the loop that this thread initialised last and the thread that it set last, or NULL,
  -- whatever the others do.
  pub evloop_get-Reached :
      (s0 : Keys p)
      → s0.evloop.once ≡ p.once_init
      → s0.cthread.once ≡ p.once_init
      → (s : Keys p) (v : Owners) → Reached s0 s v
      → v.looped ≡ true
      → v.started ≡ true
      → (t : ℕ) → (evloop_get p t s ≡ v.loop t) × (current p t s ≡ v.thread t)
  unfolding evloop_get current
  evloop_get-Reached s0 a b s v r looped started t =
      let h = Reached-Holds s0 a b s v r in
      (
        Kept-get p s.values s.evloop v.looped v.loop h.loops looped t,
        Kept-get p s.values s.cthread v.started v.thread h.threads started t,
      )
