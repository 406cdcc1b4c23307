-- ===== src/Threads/Census.antt =====
-- cthread.c: the count of threads in a `struct cthread_main`.
use cthread.Base.{
  ℕ, ◌+◌, ◌-◌, ◌≡◌, ◌∙◌, sym, ap, refl, Bool, true, false, not, ◌&&◌, List, [], ◌∷◌, length, has,
  Option, none, some, ◌==◌, if◌then◌else◌, update, arith, Bool-cases, inl, inr,
}
use cthread.Word.{ℤ, pos}
use cthread.Threads.{Caller, Thread, Main, State, Slot, thread_stack, main_stack}
use cthread.Threads.Exit.{exited}
use cthread.Threads.Running.{Switched-same}
use cthread.Threads.Start.{created}
use cthread.Threads.Switch.{Switched, main_at, with_stack, with_caller, with_main_stack}

-- the main of a thread and whether the thread has ended; and the count in a main
abbrev pub life : Option Thread → Option (ℕ × Bool)
life none = none
life (some t) = some (t.main, t.finished)

abbrev pub count : Option Main → Option ℤ
count none = none
count (some x) = some x.num_threads

-- In `g` there are the threads of `s`, with the same ends, and the same counts.
pub record Lives (s g : State) : Type 0 where
  pub threads : (a : ℕ) → life (g.thread a) ≡ life (s.thread a)
  pub mains : (m : ℕ) → count (g.main m) ≡ count (s.main m)

pub Lives-trans : {s g h : State} → Lives s g → Lives g h → Lives s h
Lives-trans a b = record {
  threads = λ p. b.threads p ∙ a.threads p;
  mains = λ m. b.mains m ∙ a.mains m;
}

life-with_stack : (sp : ℕ) (t : Option Thread) → life (with_stack sp t) ≡ life t
life-with_stack sp none = refl
life-with_stack sp (some t) = refl

life-with_caller : (f : Caller) (t : Option Thread) → life (with_caller f t) ≡ life t
life-with_caller f none = refl
life-with_caller f (some t) = refl

count-with_main_stack : (sp : ℕ) (x : Option Main) → count (with_main_stack sp x) ≡ count x
count-with_main_stack sp none = refl
count-with_main_stack sp (some x) = refl

count-main_at : (save : Slot) (sp a : ℕ) (x : Option Main) → count (main_at save sp a x) ≡ count x
count-main_at (thread_stack c) sp a x = refl
count-main_at (main_stack m) sp a x = elim (Bool-cases (m == a)) [
  | inl here ↦ rw here (count-with_main_stack sp x)
  | inr there ↦ rw there
]

pub Switched-Lives :
    {back udata load : ℕ} {save : Slot} {c : Option ℕ} {s g : State}
    → Switched back udata load save c s g
    → Lives s g
Switched-Lives {save} {s} w = record {
  threads = Switched-same life life-with_stack life-with_caller w;
  mains = λ m. ap count (w.main m) ∙ count-main_at save (s.cpu.rsp - 56) m (s.main m);
}

-- another value of a thread, with the same main and end
pub relabel :
    {s : State} (p to : ℕ) (t u : Thread)
    → s.thread to ≡ some t
    → u.main ≡ t.main
    → u.finished ≡ t.finished
    → Lives s (record s { self = p; thread = update s.thread to (some u) })
relabel {s} p to t u held main end = record {
  threads = λ a. elim (Bool-cases (to == a)) [
    | inl here ↦ let at : s.thread a ≡ some t = ground arith in rw (here, at, main, end) refl
    | inr there ↦ rw there refl
  ];
  mains = λ m. refl;
}

-- whether a thread of the main `m` has not ended
abbrev pub alive : ℕ → Option (ℕ × Bool) → Bool
alive m none = false
alive m (some (n, finished)) = (n == m) && not finished

abbrev pub Distinct : List ℕ → Type 0
Distinct [] = Unit
Distinct (x ∷ xs) = (has x xs ≡ false) × Distinct xs

-- The threads of the main `m` that have not ended are `ts`, and `num_threads` is their number.
pub record Census (s : State) (m : ℕ) (ts : List ℕ) : Type 0 where
  pub distinct : Distinct ts
  pub each : (a : ℕ) → has a ts ≡ alive m (life (s.thread a))
  pub counted : count (s.main m) ≡ some (pos (length ts))

pub Census-same : {s g : State} {m : ℕ} {ts : List ℕ} → Lives s g → Census s m ts → Census g m ts
Census-same {m} l c = record {
  distinct = c.distinct;
  each = λ a. c.each a ∙ ap (alive m) (sym (l.threads a));
  counted = l.mains m ∙ c.counted;
}

abbrev pub remove : ℕ → List ℕ → List ℕ
remove p [] = []
remove p (x ∷ xs) = let rest = remove p xs in if x == p then rest else x ∷ rest

has-remove : (p a : ℕ) (ts : List ℕ) → has a (remove p ts) ≡ (if p == a then false else has a ts)
has-remove p a [] = ground arith
has-remove p a (x ∷ xs) = ground (arith, has-remove p a xs)

remove_absent : (p : ℕ) (ts : List ℕ) → has p ts ≡ false → remove p ts ≡ ts
remove_absent p [] h = refl
remove_absent p (x ∷ xs) h =
    let other : (x == p) ≡ false = ground arith in
    rw other (ap (λ r. x ∷ r) (remove_absent p xs (ground arith)))

length-remove :
    (p : ℕ) (ts : List ℕ) → Distinct ts → has p ts ≡ true → length ts ≡ length (remove p ts) + 1
length-remove p [] d h = cc
length-remove p (x ∷ xs) (out, d) h = elim (Bool-cases (x == p)) [
  | inl here ↦ let gone = remove_absent p xs (ground arith) in rw (here, gone) (omega arith)
  | inr there ↦ rw there (omega (arith, length-remove p xs d (ground arith)))
]

remove-Distinct : (p : ℕ) (ts : List ℕ) → Distinct ts → Distinct (remove p ts)
remove-Distinct p [] d = tt
remove-Distinct p (x ∷ xs) (out, d) = elim (Bool-cases (x == p)) [
  | inl here ↦ rw here (remove-Distinct p xs d)
  | inr there ↦ rw there (ground (arith, has-remove p x xs), remove-Distinct p xs d)
]

some-inj : {a b : ℤ} → some a ≡ some b → a ≡ b
some-inj e = ground arith

module _ {s : State} {m : ℕ} {ts : List ℕ} (r : Census s m ts) where
  held_count : (n : ℕ) (x : Main) → s.main n ≡ some x → n ≡ m → x.num_threads ≡ pos (length ts)
  held_count n x held same = some-inj (sym (ap count (ap s.main (sym same) ∙ held)) ∙ r.counted)

  -- a new thread of the main `n`
  pub Census-created :
      (morestack c n entry : ℕ) (x : Main)
      → s.thread c ≡ none
      → s.main n ≡ some x
      → Census (created morestack c n entry x s) m (if n == m then c ∷ ts else ts)
  Census-created morestack c n entry x unused held =
      let out : has c ts ≡ false = r.each c ∙ ap (λ t. alive m (life t)) unused in
      elim (Bool-cases (n == m)) [
        | inl here ↦
            let num = held_count n x held (ground arith) in
            rw here (record {
              distinct = (out, r.distinct);
              each = λ a. elim (Bool-cases (c == a)) [
                | inl e ↦ rw (e, here) refl
                | inr e ↦ rw e (r.each a)
              ];
              counted = rw (here, num) (ap (λ k. some (pos k)) (omega arith));
            })
        | inr there ↦ rw there (record {
          distinct = r.distinct;
          each = λ a. elim (Bool-cases (c == a)) [
            | inl e ↦ rw (e, there) (ground arith)
            | inr e ↦ rw e (r.each a)
          ];
          counted = rw there r.counted;
        })
      ]

  -- the end of the current thread
  pub Census-exited :
      (code : ℕ) (t : Thread) (x : Main)
      → s.thread s.self ≡ some t
      → t.finished ≡ false
      → s.main t.main ≡ some x
      → Census (exited code t x s) m (remove s.self ts)
  Census-exited code t x runs new held =
      let each : (a : ℕ)
          → has a (remove s.self ts) ≡ alive m (life ((exited code t x s).thread a)) =
        λ a. has-remove s.self a ts ∙ elim (Bool-cases (s.self == a)) [
          | inl e ↦ rw e (ground arith)
          | inr e ↦ rw e (r.each a)
        ] in
      let own : has s.self ts ≡ alive m (life (some t)) =
        r.each s.self ∙ ap (λ u. alive m (life u)) runs in
      let distinct = remove-Distinct s.self ts r.distinct in
      elim (Bool-cases (t.main == m)) [
        | inl here ↦
            let num = held_count t.main x held (ground arith) in
            let one_less = length-remove s.self ts r.distinct (ground arith) in
            record {
              distinct = distinct;
              each = each;
              counted = rw (here, num, one_less) (ground arith);
            }
        | inr there ↦
            let rest = remove_absent s.self ts (ground arith) in
            record { distinct = distinct; each = each; counted = rw (there, rest) r.counted }
      ]
