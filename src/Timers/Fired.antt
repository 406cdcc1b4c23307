-- ===== src/Timers/Fired.antt =====
-- evloop.c: which timers ev_step_timers fires, and in which order.
use cthread.Base.{
  has, leb, ◌==◌, ℕ, ◌≤◌, ◌<◌, ◌≡◌, ◌≢◌, true, false, List, [], ◌∷◌, Option, none, some, refl,
  arith, if◌then◌else◌, Bool-cases, inl, inr, sym, ap, ◌∙◌,
}
use cthread.Word.{sub32}
use cthread.Run.{ok, Returns, returns, Returns-map}
use cthread.Heap.{Heap}
use cthread.Heap.Links.{lookup}
use cthread.Timers.{Loop, Callback, ev_step_timers}
use cthread.Timers.Deadline.{IsReady}
use cthread.Timers.Step.{Contract, NoneDue, due, ev_step_timers-keeps}

-- the time from `o` to a deadline
abbrev pub until : ℕ → Option ℕ → ℕ
until o none = 0
until o (some x) = sub32 x o

-- each one's time is the latest of the list from it on, and none stands twice
abbrev pub Descending : (ℕ → ℕ) → List ℕ → Type 0
Descending time [] = Unit
Descending time (t ∷ ts) =
    ((n : ℕ) → has n ts ≡ true → time n ≤ time t) × (has t ts ≡ false) × Descending time ts

module _ {S : Type 0} where
  -- what the functions of the timers `ts` do, the last one first
  abbrev pub notes : (ℕ → S → S) → List ℕ → S → S
  notes note [] s = s
  notes note (t ∷ ts) s = note t (notes note ts s)

  -- The functions of the timers do not touch the timers: they do `note` to the rest of the state.
  abbrev pub Quiet : Callback S → (ℕ → S → S) → Type 0
  Quiet call note =
      (e : Loop S) (t : ℕ) → call (e.fn t) t e ≡ ok (record e { rest = note t e.rest })

  -- From `e` on the timers `taken` have been taken from the heap, and the functions of `called` called.
  record Traced (note : ℕ → S → S) (o : ℕ) (e : Loop S) (taken called : List ℕ) (g : Loop S)
      : Type 0 where
    rest : g.rest ≡ notes note called e.rest
    now : g.now ≡ e.now
    items : (n : ℕ) → lookup g.timers n ≡ (if has n taken then none else lookup e.timers n)
    past :
        (n : ℕ)
        → has n taken ≡ true
        → (x : ℕ) × (lookup e.timers n ≡ some x) × (sub32 x o ≤ sub32 e.now o)
    order : Descending (λ n. until o (lookup e.timers n)) taken
    ahead :
        (n m y : ℕ)
        → has n taken ≡ true
        → lookup g.timers m ≡ some y
        → until o (lookup e.timers n) ≤ sub32 y o

  -- what ev_step_timers does: it fires the timers `ts`, the last one first
  pub record Fired (note : ℕ → S → S) (o : ℕ) (e : Loop S) (ts : List ℕ) (g : Loop S) : Type 0 where
    pub rest : g.rest ≡ notes note ts e.rest
    pub now : g.now ≡ e.now
    pub items : (n : ℕ) → lookup g.timers n ≡ (if has n ts then none else lookup e.timers n)
    pub exactly :
        (n x : ℕ) → lookup e.timers n ≡ some x → has n ts ≡ leb (sub32 x o) (sub32 e.now o)
    pub armed : (n : ℕ) → has n ts ≡ true → lookup e.timers n ≢ none
    pub order : Descending (λ n. until o (lookup e.timers n)) ts

module _ {S : Type 0} (call : Callback S) (note : ℕ → S → S) (quiet : Quiet call note) (o : ℕ)
    (e : Loop S) where
  abbrev Before : Loop S → Type 0
  Before g = (ts : List ℕ) × Traced note o e ts ts g

  abbrev Taken : ℕ → Loop S → Type 0
  Taken t g = (ts : List ℕ) × Traced note o e (t ∷ ts) ts g

  take :
      (g : Loop S) (h : Heap) (t x : ℕ)
      → Before g
      → lookup g.timers t ≡ some x
      → sub32 x o ≤ sub32 g.now o
      → ((n y : ℕ) → lookup g.timers n ≡ some y → sub32 x o ≤ sub32 y o)
      → ((n : ℕ) → lookup h n ≡ (if t == n then none else lookup g.timers n))
      → Taken t (record g { timers = h })
  take g h t x (ts, d) at passed least items =
      let out : has t ts ≡ false = ground (arith, d.items t) in
      let mine : lookup e.timers t ≡ some x = ground (arith, d.items t) in
      let time : until o (lookup e.timers t) ≡ sub32 x o = ap (until o) mine in
      (
        ts,
        record {
          rest = d.rest;
          now = d.now;
          items = λ n. ground (arith, items n, d.items n);
          past = λ n m. elim (Bool-cases (t == n)) [
            | inl same ↦
                let t_n : t ≡ n = ground arith in
                (x, ap (lookup e.timers) (sym t_n) ∙ mine, rw (← d.now) passed)
            | inr other ↦ d.past n (ground arith)
          ];
          order = (λ n m. rw time (d.ahead n t x m at), out, d.order);
          ahead = λ n m y i f.
              let held : lookup g.timers m ≡ some y = ground (arith, items m) in
              elim (Bool-cases (t == n)) [
                | inl same ↦ let t_n : t ≡ n = ground arith in rw (← t_n, time) (least m y held)
                | inr other ↦ d.ahead n m y (ground arith) held
              ];
        },
      )

  quiet-Contract : Contract o call Before Taken
  quiet-Contract = record {
    takes = take;
    behaves = λ g t ready gone (ts, d). rw (quiet g t) (
        returns (
          record { queue = ready.queue; clock = ready.clock; set = ready.set },
          omega arith,
          (
            t ∷ ts,
            record {
              rest = ap (note t) d.rest;
              now = d.now;
              items = d.items;
              past = d.past;
              order = d.order;
              ahead = d.ahead;
            },
          ),
        ));
  }

  Traced-Fired :
      (g : Loop S) (ts : List ℕ) → NoneDue o g → Traced note o e ts ts g → Fired note o e ts g
  Traced-Fired g ts none_due d = record {
    rest = d.rest;
    now = d.now;
    items = d.items;
    exactly = λ n x f. elim (Bool-cases (has n ts)) [
      | inl fired ↦ let (y, at, passed) = d.past n fired in ground (arith, at)
      | inr left ↦
          let held : lookup g.timers n ≡ some x = ground (arith, d.items n) in
          let later = none_due n x held in ground (arith, d.now)
    ];
    armed = λ n fired gone. let (y, at, passed) = d.past n fired in cc;
    order = d.order;
  }

  -- Let the functions of the timers leave the timers alone. Then ev_step_timers returns, with more
  -- fuel than timers are due, and has called the functions of exactly the timers that are due, once each,
  -- in the order of their deadlines; these are taken from the heap, and no others.
  pub ev_step_timers-Fired :
      (fuel : ℕ)
      → IsReady o e
      → due o e < fuel
      → Returns (λ r. (ts : List ℕ) × Fired note o e ts r.1) (ev_step_timers call fuel e)
  ev_step_timers-Fired fuel r enough =
      let start : Before e = (
        [],
        record {
          rest = refl;
          now = refl;
          items = λ n. refl;
          past = λ n m. cc;
          order = tt;
          ahead = λ n m y i f. cc;
        },
      ) in
      Returns-map (ev_step_timers-keeps call quiet-Contract fuel e r enough start)
        λ (z, g) (ready, none_due, (ts, d), out). (ts, Traced-Fired g ts none_due d)
