-- ===== src/Threads/Moves.antt =====
-- cthread.c: what calls, yields and starts do to the stack of running threads, and to the threads that
-- there are.
use cthread.Base.{
  ℕ, ◌-◌, ◌≤◌, ◌≡◌, ◌≢◌, ◌∙◌, sym, ap, false, List, ◌∷◌, Option, none, some, ◌==◌, arith, refl,
  subst, Bool-cases, inl, inr, has,
}
use cthread.Run.{Returns, Returns-map}
use cthread.Threads.{null, Thread, Main, State, Slot}
use cthread.Threads.Call.{
  cthread_call, cthread_tailcall, cthread_yield, cthread_start, cthread_main_start, place, zeroed,
}
use cthread.Threads.Switch.{Switched, Holds}
use cthread.Threads.Yield.{call_slot, calling, cthread_call_lem, do_yield_lem, yield_stack-ok}
use cthread.Threads.Exit.{cthread_tailcall_lem}
use cthread.Threads.Start.{created, started, cthread_start_lem, cthread_main_start_lem}
use cthread.Threads.Result.{Fits}
use cthread.Threads.Census.{Lives, Lives-trans, Switched-Lives, relabel}
use cthread.Threads.Running.{Line, Running, Switched-Running}
use cthread.Threads.Top.{
  Current, Running-Current, out_parts, Line-held, put_on, take_off, main_held, saved_stack,
  created-Running,
}

-- there are the threads of `s`, and a new one of the main `m`
abbrev pub Begun : ℕ → ℕ → ℕ → ℕ → ℕ → State → State → Type 0
Begun morestack m entry stack sz s g =
    (x : Main) × (s.main m ≡ some x) × Lives (created morestack (place stack sz) m entry x s) g

pub passed :
    {back udata load : ℕ} {save : Slot} {caller : Option ℕ} {b p g : State} {xs : List ℕ}
    → Switched back udata load save caller p g
    → Running p xs
    → Lives b p
    → Running g xs × Lives b g
passed w r l = (Switched-Running w r, Lives-trans l (Switched-Lives w))

module _ {s : State} {xs : List ℕ} (r : Running s xs) (back : ℕ) (room : 56 ≤ s.cpu.rsp) where
  call_slot-Holds :
      (to : ℕ) (t : Thread)
      → s.thread to ≡ some t
      → has to xs ≡ false
      → Holds (call_slot s.self t) (calling to t s)
  call_slot-Holds to t held out = elim (Bool-cases (s.self == null)) [
    | inl main ↦ rw main (main_held to t r held)
    | inr other ↦
        let c = Running-Current r (λ e. absurd (ground arith)) in
        let top = c.held in
        let (apart, rest) = out_parts to s.self c.rest (sym (ap (has to) c.split) ∙ out) in
        rw other (c.top, rw apart top)
  ]

  pub call-Running :
      (to udata : ℕ) (t : Thread)
      → s.thread to ≡ some t
      → has to xs ≡ false
      → Returns (λ g. Running g (to ∷ xs) × Lives s g) (cthread_call back to udata s)
  call-Running to udata t held out =
      Returns-map (cthread_call_lem back to udata s t held room (call_slot-Holds to t held out))
        λ g w.
          passed w (put_on to t (record t { yield_to = s.self }) r held refl out r.line)
            (relabel to to t (record t { yield_to = s.self }) held refl refl)

  pub yield-Running :
      (udata : ℕ) (c : Current s xs)
      → Returns (λ g. Running g c.rest × Lives s g) (cthread_yield back udata s)
  unfolding cthread_yield
  yield-Running udata c =
      let (load, e) =
        saved_stack s.self c.top.yield_to c.top (take_off c.top.yield_to r c.under) c.held
          c.under in
      Returns-map
        (do_yield_lem back udata s.self load c.top s c.held (yield_stack-ok s c.top load e) room)
        λ g w.
          passed w (take_off c.top.yield_to r c.under)
            (record { threads = λ a. refl; mains = λ m. refl })

  pub tailcall-Running :
      (to udata : ℕ) (t : Thread) (c : Current s xs)
      → s.thread to ≡ some t
      → has to xs ≡ false
      → Returns (λ g. Running g (to ∷ c.rest) × Lives s g) (cthread_tailcall back to udata s)
  tailcall-Running to udata t c held out =
      Returns-map (cthread_tailcall_lem back to udata c.top t s c.held held room) λ g w.
        let u = record t { yield_to = c.top.yield_to; caller = c.top.caller } in
        passed w
          (put_on to t u r held refl
            (out_parts to s.self c.rest (sym (ap (has to) c.split) ∙ out)).1 c.under)
          (relabel to to t u held refl refl)

  pub start-Running :
      (morestack entry arg stack sz : ℕ) (c : Current s xs)
      → Fits stack sz s
      → s.thread (place stack sz) ≡ none
      → Returns
          (λ g. Running g (place stack sz ∷ xs) × Begun morestack c.top.main entry stack sz s g)
          (cthread_start morestack back entry arg stack sz s)
  start-Running morestack entry arg stack sz c f unused =
      let p = place stack sz in
      let nz : p ≢ null = λ e. absurd (omega (arith, f.fits)) in
      let (x, held) = main_held s.self c.top r c.held in
      let top = c.held in
      let other : s.self ≢ p = λ e. cc (ap s.thread e) in
      let made = created-Running r morestack p c.top.main entry x nz unused held in
      Returns-map
        (cthread_start_lem morestack back entry arg stack sz x s c.top c.held other held f.fits
          f.room f.apart)
        λ g w.
          let t = record zeroed { stack = p - 64; main = c.top.main } in
          let is : (created morestack p c.top.main entry x s).thread p ≡ some t = ground arith in
          let (run, l) =
            passed w.1
              (put_on p t (started s.self p c.top.main) made is refl (Line-held r.line p unused)
                made.line)
              (relabel p p t (started s.self p c.top.main) is refl refl) in
          (run, (x, held, l))

  pub main_start-Running :
      (morestack m entry arg stack sz : ℕ) (x : Main)
      → s.self ≡ null
      → s.main m ≡ some x
      → Fits stack sz s
      → s.thread (place stack sz) ≡ none
      → Returns
          (λ g. Running g (place stack sz ∷ xs) × Begun morestack m entry stack sz s g)
          (cthread_main_start morestack back m entry arg stack sz s)
  main_start-Running morestack m entry arg stack sz x idle held f unused =
      let p = place stack sz in
      let nz : p ≢ null = λ e. absurd (omega (arith, f.fits)) in
      let made = created-Running r morestack p m entry x nz unused held in
      Returns-map
        (cthread_main_start_lem morestack back entry arg stack sz x s m idle held f.fits f.room
          f.apart)
        λ g w.
          let t = record zeroed { stack = p - 64; main = m } in
          let is : (created morestack p m entry x s).thread p ≡ some t = ground arith in
          let (run, l) =
            passed w.1
              (put_on p t (started null p m) made is refl (Line-held r.line p unused)
                (subst (λ q. Line (created morestack p m entry x s).thread q xs) idle made.line))
              (relabel p p t (started null p m) is refl refl) in
          (run, (x, held, l))
