-- ===== src/Overlapped/Ready.antt =====
-- evloop.windows.c: the results of reads and writes, and the list of finished watches.
use cthread.Base.{
  ℕ, ◌^◌, ◌≤◌, ◌<◌, ◌≡◌, ◌≢◌, refl, true, false, List, [], ◌∷◌, Option, none, some, has, ltb, ◌-◌,
  if◌then◌else◌, ◌==◌, arith, subst,
}
use cthread.Word.{ℤ, pos, negsuc, signed32}
use cthread.Overlapped.{Overlapped, Files, request, finish, ev_recv, ev_send, ev_finish}

-- the bytes that one call may transfer: `sz`, or INT_MAX if that is less
abbrev pub up_to : ℕ → ℕ
up_to sz = if ltb sz (2 ^ 31) then sz else 2 ^ 31 - 1

-- a result of ev_finish after a call that transferred `o` of `sz` bytes, or has not ended with success: the
-- number of bytes, which is in the range of a positive int, or -1
abbrev pub InRange : ℕ → Option ℕ → ℤ → Type 0
InRange sz none z = z ≡ negsuc 0
InRange sz (some n) z = (z ≡ pos n) × (n ≤ sz) × (n < 2 ^ 31)

request_lem : (sz : ℕ) → request sz ≡ up_to sz
unfolding request
request_lem sz = ground arith

signed32-pos : (n : ℕ) → n < 2 ^ 31 → signed32 n ≡ pos n
unfolding signed32
signed32-pos n h = ground arith

finish-InRange :
    (w sz : ℕ) (o : Option ℕ) (e : Overlapped)
    → ((n : ℕ) → o ≡ some n → n ≤ up_to sz)
    → InRange sz o (ev_finish w (finish w o e))
unfolding finish ev_finish
finish-InRange w sz none e h = ground arith
finish-InRange w sz (some n) e h =
    let le : n ≤ up_to sz = h n refl in
    let low : (up_to sz ≤ sz) × (up_to sz < 2 ^ 31) = (ground arith, ground arith) in
    let small : signed32 n ≡ pos n = signed32-pos n (omega (arith, low, le)) in
    (rw small (ground arith), omega (arith, low, le), omega (arith, low, le))

-- ev_recv and ev_send with any size ask the system for as many bytes as that, or INT_MAX if that is
-- less. If the call ends with success at once, ev_finish of the watch is then exactly the number of
-- bytes it transferred, which is at most the size and at most INT_MAX: no size is cut off to a negative
-- int. If not, ev_finish is -1.
pub ev_finish-InRange :
    (f : Files) (w fd buf sz : ℕ) (e : Overlapped)
    → InRange sz (f.read_file fd buf (up_to sz)) (ev_finish w (ev_recv f w fd buf sz e))
      × InRange sz (f.write_file fd buf (up_to sz)) (ev_finish w (ev_send f w fd buf sz e))
unfolding ev_recv ev_send
ev_finish-InRange f w fd buf sz e = rw (request_lem sz) (
  finish-InRange w sz (f.read_file fd buf (up_to sz)) e (f.read_fits fd buf (up_to sz)),
  finish-InRange w sz (f.write_file fd buf (up_to sz)) e (f.write_fits fd buf (up_to sz)),
)

-- from `p` the links lead through the distinct watches `xs` to NULL
pub data Ready (next : ℕ → ℕ) : ℕ → List ℕ → Type 0 where
  nil : Ready next 0 []
  cons :
      {p : ℕ} {xs : List ℕ}
      → p ≢ 0
      → has p xs ≡ false
      → Ready next (next p) xs
      → Ready next p (p ∷ xs)

-- the list after an operation on `w`
abbrev pub listed : ℕ → Option ℕ → List ℕ → List ℕ
listed w none xs = xs
listed w (some n) xs = w ∷ xs

Ready-frame :
    {m g : ℕ → ℕ} {p : ℕ} {xs : List ℕ}
    → Ready m p xs
    → ((a : ℕ) → has a xs ≡ true → g a ≡ m a)
    → Ready g p xs
Ready-frame nil same = nil
Ready-frame {g} (cons {p} {xs} nz out r) same =
    let here : g p ≡ _ = same p (ground arith) in
    cons nz out (rw here (Ready-frame r λ a i. same a (ground arith)))

finish-Ready :
    (w : ℕ) (o : Option ℕ) (e : Overlapped) (xs : List ℕ)
    → Ready e.next e.ready_list xs
    → w ≢ 0
    → has w xs ≡ false
    → Ready (finish w o e).next (finish w o e).ready_list (listed w o xs)
unfolding finish
finish-Ready w none e xs r nz out = r
finish-Ready w (some n) e xs r nz out =
    let own : (w == w) ≡ true = ground arith in
    cons nz out (rw own (Ready-frame r λ a i. ground arith))

-- ev_recv and ev_send of a watch that is not on the list of finished watches keep the list well formed:
-- the watch is put in front if its operation ends at once, and else the list is as before.
pub ev_recv-Ready :
    (f : Files) (w fd buf sz : ℕ) (e : Overlapped) (xs : List ℕ)
    → Ready e.next e.ready_list xs
    → w ≢ 0
    → has w xs ≡ false
    → Ready
        (ev_recv f w fd buf sz e).next
        (ev_recv f w fd buf sz e).ready_list
        (listed w (f.read_file fd buf (request sz)) xs)
      × Ready
          (ev_send f w fd buf sz e).next
          (ev_send f w fd buf sz e).ready_list
          (listed w (f.write_file fd buf (request sz)) xs)
unfolding ev_recv ev_send
ev_recv-Ready f w fd buf sz e xs r nz out = (
  finish-Ready w (f.read_file fd buf (request sz)) e xs r nz out,
  finish-Ready w (f.write_file fd buf (request sz)) e xs r nz out,
)

has-head : {next : ℕ → ℕ} {p : ℕ} {xs : List ℕ} → Ready next p xs → p ≢ 0 → has p xs ≡ true
has-head nil nz = absurd (nz refl)
has-head (cons {p} other out r) nz = ground arith

-- a link to itself ends nowhere
loop-Ready :
    {next : ℕ → ℕ} {w : ℕ} {xs : List ℕ} → Ready next w xs → w ≢ 0 → next w ≡ w → ¬ Ready next w xs
loop-Ready nil nz self r = nz refl
loop-Ready {next} (cons {p} {xs} other out r) nz self again =
    let after : Ready next p xs = subst (λ q. Ready next q xs) self r in
    let there = has-head after nz in cc (there, out)

-- Two reads of one watch that both end at once make the list of finished watches circular: it is then
-- well formed for no watches.
pub ev_recv-twice :
    (f : Files) (w fd buf sz n : ℕ) (e : Overlapped) (xs : List ℕ)
    → w ≢ 0
    → f.read_file fd buf (request sz) ≡ some n
    → ¬ Ready
        (ev_recv f w fd buf sz (ev_recv f w fd buf sz e)).next
        (ev_recv f w fd buf sz (ev_recv f w fd buf sz e)).ready_list
        xs
unfolding ev_recv finish
ev_recv-twice f w fd buf sz n e xs nz ends = λ r.
    let g = finish w (some n) e in
    let back : (finish w (some n) g).next w ≡ w = ground arith in
    let list =
      subst (λ o. Ready (finish w o (finish w o e)).next (finish w o (finish w o e)).ready_list xs)
        ends r in
    loop-Ready list nz back list
