-- ===== src/Threads/Top.antt =====
-- cthread.c: the top of the stack of running threads.
use cthread.Base.{
  ℕ, ◌≡◌, ◌≢◌, ◌∙◌, sym, ap, true, false, List, ◌∷◌, Option, none, some, ◌==◌, update, arith, refl,
  subst, Bool-cases, inl, inr, has,
}
use cthread.Threads.{null, Thread, Main, State}
use cthread.Threads.Call.{pred, succ}
use cthread.Threads.Yield.{call_slot, stack_of}
use cthread.Threads.Exit.{exited}
use cthread.Threads.Start.{created}
use cthread.Threads.Running.{link, main_of, Line, nil, cons, Line-frame, Running, Running-same}

pub Line-split :
    {m : ℕ → Option Thread} {p : ℕ} {xs : List ℕ}
    → Line m p xs
    → p ≢ null
    → (n : ℕ) × (r : List ℕ) × (xs ≡ p ∷ r) × (link (m p) ≡ some n) × (has p r ≡ false) × Line m n r
Line-split nil nz = absurd (nz refl)
Line-split (cons {n} {xs} nz l out r) other = (n, xs, refl, l, out, r)

pub linked :
    (o : Option Thread) (n : ℕ) → link o ≡ some n → (t : Thread) × (o ≡ some t) × (t.yield_to ≡ n)
linked none n h = cc
linked (some t) n h = (t, refl, ground arith)

-- the current thread, and the threads under it
pub record Current (s : State) (xs : List ℕ) : Type 0 where
  pub rest : List ℕ
  pub top : Thread
  pub split : xs ≡ s.self ∷ rest
  pub held : s.thread s.self ≡ some top
  pub out : has s.self rest ≡ false
  pub under : Line s.thread top.yield_to rest

pub Running-Current : {s : State} {xs : List ℕ} → Running s xs → s.self ≢ null → Current s xs
Running-Current {s} r nz =
    let (n, rest, split, l, out, under) = Line-split r.line nz in
    let (t, held, e) = linked (s.thread s.self) n l in
    record {
      rest = rest;
      top = t;
      split = split;
      held = held;
      out = out;
      under = subst (λ p. Line s.thread p rest) (sym e) under;
    }

pub ne_null :
    {s : State} {xs : List ℕ} (to : ℕ) (t : Thread)
    → Running s xs
    → s.thread to ≡ some t
    → to ≢ null
ne_null {s} to t r held e =
    let free = r.null_free in let at : s.thread null ≡ some t = ap s.thread (sym e) ∙ held in cc

pub has_apart : (to a : ℕ) (xs : List ℕ) → has to xs ≡ false → has a xs ≡ true → (to == a) ≡ false
has_apart to a xs out i = elim (Bool-cases (to == a)) [
  | inl same ↦ let e : to ≡ a = ground arith in cc (ap (λ p. has p xs) e)
  | inr apart ↦ apart
]

pub out_parts :
    (to p : ℕ) (r : List ℕ) → has to (p ∷ r) ≡ false → ((to == p) ≡ false) × (has to r ≡ false)
out_parts to p r h = (ground arith, ground arith)

pub Line-held :
    {m : ℕ → Option Thread} {p : ℕ} {xs : List ℕ}
    → Line m p xs
    → (a : ℕ) → m a ≡ none
    → has a xs ≡ false
Line-held nil a h = refl
Line-held {m} (cons {p} nz l out r) a h = elim (Bool-cases (p == a)) [
  | inl here ↦ let at : m p ≡ none = ap m (ground arith) ∙ h in cc (l, ap link at)
  | inr there ↦ rw there (Line-held r a h)
]

-- the thread `to`, changed and put on top of `xs`
pub put_on :
    {s : State} {all xs : List ℕ} (to : ℕ) (t u : Thread)
    → Running s all
    → s.thread to ≡ some t
    → u.main ≡ t.main
    → has to xs ≡ false
    → Line s.thread u.yield_to xs
    → Running (record s { self = to; thread = update s.thread to (some u) }) (to ∷ xs)
put_on {s} {xs} to t u r held same out line =
    let nz = ne_null to t r held in
    let free = r.null_free in
    record {
      line = cons nz (ground arith) out (Line-frame line λ a i. rw (has_apart to a xs out i) refl);
      null_free = ground arith;
      rooted = λ a m h. elim (Bool-cases (to == a)) [
        | inl here ↦ r.rooted to m (ground arith)
        | inr there ↦ r.rooted a m (ground arith)
      ];
    }

-- a thread that runs, made current with those under it
pub take_off :
    {s : State} {all xs : List ℕ} (p : ℕ)
    → Running s all
    → Line s.thread p xs
    → Running (record s { self = p }) xs
take_off p r line = record { line = line; null_free = r.null_free; rooted = r.rooted }

pub main_held :
    {s : State} {xs : List ℕ} (a : ℕ) (t : Thread)
    → Running s xs
    → s.thread a ≡ some t
    → (x : Main) × (s.main t.main ≡ some x)
main_held a t r h = r.rooted a t.main (ap main_of h)

-- the stack pointer that a yield to `p` of the thread `f` loads
pub saved_stack :
    {s : State} {xs : List ℕ} (a p : ℕ) (f : Thread)
    → Running s xs
    → s.thread a ≡ some f
    → Line s.thread p xs
    → (load : ℕ) × (stack_of s (call_slot p f) ≡ some load)
saved_stack {s} a p f r h line = elim (Bool-cases (p == null)) [
  | inl main ↦ let (x, e) = main_held a f r h in (x.stack, rw (main, e) refl)
  | inr other ↦
      let (n, rest, split, l, out, under) = Line-split line (λ e. absurd (ground arith)) in
      let (t, e, y) = linked (s.thread p) n l in (t.stack, rw (other, e) refl)
]

-- a table with one entry set has what it had
kept_main :
    (mains : ℕ → Option Main) (m n : ℕ) (y x : Main)
    → mains n ≡ some x
    → (z : Main) × (update mains m (some y) n ≡ some z)
kept_main mains m n y x h = elim (Bool-cases (m == n)) [
  | inl here ↦ (y, rw here refl)
  | inr there ↦ (x, rw there h)
]

module _ {s : State} {xs : List ℕ} (r : Running s xs) where
  -- a new thread at an address that is not in use
  pub created-Running :
      (morestack c m entry : ℕ) (x : Main)
      → c ≢ null
      → s.thread c ≡ none
      → s.main m ≡ some x
      → Running (created morestack c m entry x s) xs
  created-Running morestack c m entry x nz unused held =
      let y = record x { num_threads = succ x.num_threads } in
      record {
        line = Line-frame r.line λ a i. rw (has_apart c a xs (Line-held r.line c unused) i) refl;
        null_free = let free = r.null_free in ground arith;
        rooted = λ a n h. elim (Bool-cases (c == a)) [
          | inl here ↦
              let same : m ≡ n = ground arith in
              kept_main s.main m n y x (ap s.main (sym same) ∙ held)
          | inr there ↦ let (z, e) = r.rooted a n (ground arith) in kept_main s.main m n y z e
        ];
      }

  -- the current thread after its end
  pub exited-Running :
      (code : ℕ) (m : Main) (c : Current s xs)
      → s.main c.top.main ≡ some m
      → Running (exited code c.top m s) xs
  exited-Running code m c held =
      let top = c.held in
      Running-same (λ a. ground arith) (λ a. ground arith)
        (λ n x e. kept_main s.main c.top.main n (record m { num_threads = pred m.num_threads }) x e)
        refl r

  pub exited-Line :
      (code : ℕ) (m : Main) (c : Current s xs)
      → Line (exited code c.top m s).thread c.top.yield_to c.rest
  exited-Line code m c = let top = c.held in Line-frame c.under λ a i. ground arith
