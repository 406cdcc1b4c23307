-- ===== src/Sleep/Range.antt =====
-- cthread-c11threads.h: how long ct_thrd_sleep waits.
use cthread.Base.{
  ℕ, ◌+◌, ◌-◌, ◌*◌, ◌/◌, ◌%◌, ◌^◌, ◌<◌, ◌≡◌, refl, false, ltb, ◌==◌, if◌then◌else◌, arith,
}
use cthread.Word.{pos, add32, sub32, signed32, is_positive, word_mod}
use cthread.Run.{ok}
use cthread.Heap.{Entry, load, heap_head}
use cthread.Timers.{Loop, ev_timeout, next_timeout}
use cthread.Sleep.{sleep_ms}

-- the milliseconds of a `struct timespec`, modulo 2^32
abbrev pub milliseconds : ℕ → ℕ → ℕ
milliseconds sec nsec = (sec * 1000 + nsec / 1000000) % 2 ^ 32

-- the instant that lies so many milliseconds after the clock `now`
abbrev pub instant_after : ℕ → ℕ → ℕ → ℕ
instant_after now sec nsec = (now + milliseconds sec nsec) % 2 ^ 32

ahead_by :
    (now d m : ℕ)
    → now < word_mod
    → d < 2 ^ 31
    → m < word_mod
    → (if is_positive (signed32 (sub32 (add32 now m) (add32 now d)))
        then signed32 (sub32 (add32 now m) (add32 now d))
        else pos 0)
      ≡ pos (if ltb (m - d) (2 ^ 31) then m - d else 0)
unfolding sub32 signed32 add32
ahead_by now d m a b c = ground arith

sleep_ms_lem : (sec nsec : ℕ) → sleep_ms sec nsec ≡ milliseconds sec nsec
unfolding sleep_ms
sleep_ms_lem sec nsec = omega arith

pub ev_timeout-sleep_ms :
    {T : Type 0} (e : Loop T) (sec nsec : ℕ)
    → ev_timeout e (sleep_ms sec nsec) ≡ instant_after e.now sec nsec
unfolding ev_timeout add32
ev_timeout-sleep_ms e sec nsec = rw (sleep_ms_lem sec nsec) (omega arith)

-- Let the earliest timer be one that ct_thrd_sleep has set for `e`, and let the clock have moved by fewer
-- than 2^31 milliseconds since then. If the milliseconds of the duration, modulo 2^32, that remain are
-- less than 2^31, the loop waits for just these, and not at all if the clock has passed them; if 2^31
-- or more remain, it does not wait either. So a sleep of 2^31 to 2^32 - 1 milliseconds is over at once.
pub next_timeout-sleep_ms :
    {T : Type 0} (e g : Loop T) (h : Entry) (sec nsec d : ℕ)
    → e.now < word_mod
    → d < 2 ^ 31
    → g.now ≡ add32 e.now d
    → (g.timers.size == 0) ≡ false
    → load g.timers heap_head ≡ ok h
    → h.value ≡ ev_timeout e (sleep_ms sec nsec)
    → next_timeout g
      ≡ ok (pos (if ltb (milliseconds sec nsec - d) (2 ^ 31) then milliseconds sec nsec - d else 0))
unfolding next_timeout ev_timeout
next_timeout-sleep_ms e g h sec nsec d clock moved later some_timer head deadline =
    let low : milliseconds sec nsec < word_mod = omega arith in
    rw
      (
        some_timer,
        head,
        deadline,
        later,
        sleep_ms_lem sec nsec,
        ahead_by e.now d (milliseconds sec nsec) clock moved low,
      )
      refl
