-- ===== src/Threads/Running.antt =====
-- cthread.c: the stack of running threads. The current thread is on top, under it stands the thread
-- that it yields to, and so on to the main function.
use cthread.Base.{
  ℕ, ◌-◌, ◌≡◌, ◌≢◌, ◌∙◌, sym, ap, true, false, List, [], ◌∷◌, Option, none, some, ◌==◌, arith, refl,
  subst, Bool-cases, inl, inr, has,
}
use cthread.Threads.{null, Thread, Main, State, Slot, thread_stack, main_stack, Caller}
use cthread.Threads.Switch.{Switched, caller_at, stack_at, main_at, with_stack, with_caller, frame}

-- what a thread yields to
abbrev pub link : Option Thread → Option ℕ
link none = none
link (some t) = some t.yield_to

-- from `p` the members `yield_to` lead through the distinct threads `xs` to NULL
pub data Line (threads : ℕ → Option Thread) : ℕ → List ℕ → Type 0 where
  nil : Line threads null []
  cons :
      {p n : ℕ} {xs : List ℕ}
      → p ≢ null
      → link (threads p) ≡ some n
      → has p xs ≡ false
      → Line threads n xs
      → Line threads p (p ∷ xs)

pub Line-frame :
    {m g : ℕ → Option Thread} {p : ℕ} {xs : List ℕ}
    → Line m p xs
    → ((a : ℕ) → has a xs ≡ true → link (g a) ≡ link (m a))
    → Line g p xs
Line-frame nil same = nil
Line-frame (cons {p} nz l out r) same =
    cons nz (same p (ground arith) ∙ l) out (Line-frame r λ a i. same a (ground arith))

abbrev pub main_of : Option Thread → Option ℕ
main_of none = none
main_of (some t) = some t.main

-- The threads `xs` are running, the current one first. The main of every thread is allocated.
pub record Running (s : State) (xs : List ℕ) : Type 0 where
  pub line : Line s.thread s.self xs
  pub null_free : s.thread null ≡ none
  pub rooted : (a m : ℕ) → main_of (s.thread a) ≡ some m → (x : Main) × (s.main m ≡ some x)

-- what no stack pointer and no caller changes, no switch changes
module _ {ℓ} {A : Type ℓ} (h : Option Thread → A)
    (stack : (sp : ℕ) (t : Option Thread) → h (with_stack sp t) ≡ h t)
    (caller : (f : Caller) (t : Option Thread) → h (with_caller f t) ≡ h t) where
  stack_at-same : (save : Slot) (sp a : ℕ) (t : Option Thread) → h (stack_at save sp a t) ≡ h t
  stack_at-same (thread_stack c) sp a t = elim (Bool-cases (c == a)) [
    | inl here ↦ rw here (stack sp t)
    | inr there ↦ rw there
  ]
  stack_at-same (main_stack m) sp a t = refl

  caller_at-same :
      (c : Option ℕ) (f : Caller) (a : ℕ) (t : Option Thread) → h (caller_at c f a t) ≡ h t
  caller_at-same none f a t = refl
  caller_at-same (some c) f a t = elim (Bool-cases (c == a)) [
    | inl here ↦ rw here (caller f t)
    | inr there ↦ rw there
  ]

  pub Switched-same :
      {back udata load : ℕ} {save : Slot} {c : Option ℕ} {s g : State}
      → Switched back udata load save c s g
      → (a : ℕ) → h (g.thread a) ≡ h (s.thread a)
  Switched-same {back} {save} {c} {s} w a =
      ap h (w.thread a)
      ∙ stack_at-same save (s.cpu.rsp - 56) a (caller_at c (frame back s) a (s.thread a))
      ∙ caller_at-same c (frame back s) a (s.thread a)

link-with_stack : (sp : ℕ) (t : Option Thread) → link (with_stack sp t) ≡ link t
link-with_stack sp none = refl
link-with_stack sp (some t) = refl

link-with_caller : (f : Caller) (t : Option Thread) → link (with_caller f t) ≡ link t
link-with_caller f none = refl
link-with_caller f (some t) = refl

main_of-with_stack : (sp : ℕ) (t : Option Thread) → main_of (with_stack sp t) ≡ main_of t
main_of-with_stack sp none = refl
main_of-with_stack sp (some t) = refl

main_of-with_caller : (f : Caller) (t : Option Thread) → main_of (with_caller f t) ≡ main_of t
main_of-with_caller f none = refl
main_of-with_caller f (some t) = refl

link-none : (t : Option Thread) → link t ≡ none → t ≡ none
link-none none h = refl
link-none (some t) h = cc

main_at-some :
    (save : Slot) (sp m : ℕ) (x : Main) (o : Option Main)
    → o ≡ some x
    → (y : Main) × (main_at save sp m o ≡ some y)
main_at-some (thread_stack c) sp m x o h = (x, h)
main_at-some (main_stack n) sp m x o h = elim (Bool-cases (n == m)) [
  | inl here ↦ (record x { stack = sp }, rw (here, h) refl)
  | inr there ↦ (x, rw there h)
]

-- what leaves the links, the mains and the current thread leaves the running threads
pub Running-same :
    {s g : State} {xs : List ℕ}
    → ((a : ℕ) → link (g.thread a) ≡ link (s.thread a))
    → ((a : ℕ) → main_of (g.thread a) ≡ main_of (s.thread a))
    → ((m : ℕ) (x : Main) → s.main m ≡ some x → (y : Main) × (g.main m ≡ some y))
    → g.self ≡ s.self
    → Running s xs
    → Running g xs
Running-same {s} {g} {xs} links mains kept self r = record {
  line = subst (λ p. Line g.thread p xs) (sym self) (Line-frame r.line λ a i. links a);
  null_free = link-none (g.thread null) (links null ∙ ap link r.null_free);
  rooted = λ a m h. let (x, e) = r.rooted a m (sym (mains a) ∙ h) in kept m x e;
}

-- A switch leaves the running threads as they are.
pub Switched-Running :
    {back udata load : ℕ} {save : Slot} {c : Option ℕ} {s g : State} {xs : List ℕ}
    → Switched back udata load save c s g
    → Running s xs
    → Running g xs
Switched-Running {save} {s} {g} {xs} w r =
    Running-same (Switched-same link link-with_stack link-with_caller w)
      (Switched-same main_of main_of-with_stack main_of-with_caller w)
      (λ m x e.
        let (y, f) = main_at-some save (s.cpu.rsp - 56) m x (s.main m) e in (y, w.main m ∙ f))
      w.self r
