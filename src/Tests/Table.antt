-- ===== src/Tests/Table.antt =====
-- The table of evloop.epoll.c at small inputs: a function, with an entry for each key.
use cthread.Base.{
  ℕ, ◌+◌, ◌-◌, ◌*◌, ◌/◌, ◌%◌, ◌<◌, ◌≡◌, refl, inl, inr, Bool-cases, Bool, true, false, not, ◌&&◌,
  Option, none, some, arith, ◌==◌, if◌then◌else◌,
}
use cthread.Word.{ℤ, pos, negsuc, eq_int, eq_int-eq, eq_int_refl}
use cthread.Poll.{null, KHash}

-- the entry of a key, and the key of an entry
unfoldable pub entry : ℤ → ℕ
entry (pos n) = 2 * n + 1
entry (negsuc n) = 2 * n + 2

unfoldable pub key : ℕ → ℤ
key i = if i % 2 == 1 then pos (i / 2) else negsuc (i / 2 - 1)

pub key-entry : (k : ℤ) → key (entry k) ≡ k
unfolding key entry
key-entry (pos n) =
    let odd : (2 * n + 1) % 2 ≡ 1 = omega arith in
    let half : (2 * n + 1) / 2 ≡ n = omega arith in rw (odd, half) refl
key-entry (negsuc n) =
    let even : (2 * n + 2) % 2 ≡ 0 = omega arith in
    let half : (2 * n + 2) / 2 - 1 ≡ n = omega arith in rw (even, half) refl

abbrev or_null : Option ℕ → ℕ
or_null none = null
or_null (some p) = p

abbrev is_none : Option ℕ → Bool
is_none none = true
is_none (some p) = false

-- a function from keys to values, and a bound of the entries in use
pub record Entries : Type 0 where
  pub at : ℤ → Option ℕ
  bound : ℕ
  low : (k : ℤ) (p : ℕ) → at k ≡ some p → entry k < bound

pub nothing_low : (k : ℤ) (p : ℕ) → none ≡ some p → entry k < 0
nothing_low k p e = absurd (ground (arith, e))

abbrev pub nothing : Entries
nothing = record { at = λ k. none; bound = 0; low = nothing_low }

pub low_set :
    (t : Entries) (k : ℤ) (o : Option ℕ) (j : ℤ) (p : ℕ)
    → (if eq_int k j then o else t.at j) ≡ some p
    → entry j < t.bound + entry k + 1
low_set t k o j p e = elim (Bool-cases (eq_int k j)) [
  | inl same ↦ rw (← eq_int-eq k j same) (omega arith)
  | inr other ↦ omega (arith, t.low j p (ground (arith, other, e)))
]

abbrev pub table_set : Entries → ℤ → Option ℕ → Entries
table_set t k o = record {
  at = λ j. if eq_int k j then o else t.at j;
  bound = t.bound + entry k + 1;
  low = low_set t k o;
}

abbrev entry_of : Entries → ℤ → ℕ
entry_of t k = if is_none (t.at k) then t.bound else entry k

is_some : (o : Option ℕ) → is_none o ≡ false → o ≡ some (or_null o)
is_some none h = cc
is_some (some p) h = refl

pub exist-entry :
    (t : Entries) (i : ℕ)
    → (entry (key i) == i && not (is_none (t.at (key i)))) ≡ true
    → (t.at (key i) ≡ some (or_null (t.at (key i)))) × (entry_of t (key i) ≡ i)
exist-entry t i e = (is_some (t.at (key i)) (ground arith), ground arith)

abbrev pub functions : KHash
functions = record {
  Table = Entries;
  init = nothing;
  find-init = λ k. refl;
  end = λ t. t.bound;
  get = entry_of;
  put = λ t k. (t, entry k, is_none (t.at k));
  val = λ t i. or_null (t.at (key i));
  set_val = λ t i p. table_set t (key i) (some p);
  del = λ t i. table_set t (key i) none;
  exist = λ t i. entry (key i) == i && not (is_none (t.at (key i)));
  find = λ t k. t.at k;
  get-none = λ t k e. rw e refl;
  get-some =
      λ t k p e. (rw e λ same. absurd (omega (arith, t.low k p e)), rw (e, key-entry, e) refl);
  put-some = λ t k p e. (rw e refl, rw (key-entry, e) refl, λ j. refl);
  put-none =
      λ t k e. (rw e refl, λ p. rw (key-entry, eq_int_refl k) refl, λ p j. rw key-entry refl);
  find-del = λ t k j p e. rw (e, key-entry) refl;
  find-exist = λ t i e. (key i, (exist-entry t i e).0, (exist-entry t i e).1);
  get-exist = λ t k p e. (rw (e, key-entry, e) (ground arith), rw e (t.low k p e));
}
