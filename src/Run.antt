-- ===== src/Run.antt =====
-- How a call of a C function ends: with a value, in `abort()`, or in a fault, which is a failed
-- assertion, an access out of bounds, a signed overflow, or a loop that the model's fuel cut short.
use cthread.Base.{◌≡◌, refl, ap, ◌∙◌, subst, sym, Bool, true, false, if◌then◌else◌}

pub data Run {ℓ} (A : Type ℓ) : Type ℓ where
  fault : Run A
  abort : Run A
  ok : A → Run A

module _ {ℓ κ} {A : Type ℓ} {B : Type κ} where
  infixl 5 ◌>>=◌
  abbrev pub ◌>>=◌ : Run A → (A → Run B) → Run B
  fault >>= next = fault
  abort >>= next = abort
  ok value >>= next = next value

infixl 5 ◌>>◌
abbrev pub ◌>>◌ {κ} : {B : Type κ} → Run (Unit {0}) → Run B → Run B
first >> second = first >>= λ _. second

-- `assert(b)`, and a check that C leaves to the programmer
abbrev pub assert : Bool → Run (Unit {0})
assert b = if b then ok tt else fault

-- The call returns, and its value satisfies `P`.
pub record Returns {ℓ κ} {A : Type ℓ} (P : A → Type κ) (call : Run A) : Type (ℓ ⊔ κ) where
  pub value : A
  pub ends : call ≡ ok value
  pub holds : P value

pub returns {ℓ κ} : {A : Type ℓ} {P : A → Type κ} {value : A} → P value → Returns P (ok value)
returns {value} p = record { value = value; ends = refl; holds = p }

-- the value, and that the call returns it
pub Returns-with {ℓ κ} :
    {A : Type ℓ} {P : A → Type κ} {call : Run A}
    → Returns P call
    → Returns (λ x. P x × (call ≡ ok x)) call
Returns-with r = record { value = r.value; ends = r.ends; holds = (r.holds, r.ends) }

-- a value that satisfies `P` also satisfies `Q`
pub Returns-map {ℓ κ μ} :
    {A : Type ℓ} {P : A → Type κ} {Q : A → Type μ} {call : Run A}
    → Returns P call
    → ((x : A) → P x → Q x)
    → Returns Q call
Returns-map r weaken = record { value = r.value; ends = r.ends; holds = weaken r.value r.holds }

-- a call after a call
pub Returns-bind {ℓ κ μ ν} :
    {A : Type ℓ} {P : A → Type κ} {C : Type μ} {Q : C → Type ν} {call : Run A} {next : A → Run C}
    → Returns P call
    → ((x : A) → P x → Returns Q (next x))
    → Returns Q (call >>= next)
Returns-bind {Q} {next} r after =
    subst (λ c. Returns Q (c >>= next)) (sym r.ends) (after r.value r.holds)

-- one of two calls
pub Returns-if {ℓ κ} :
    {A : Type ℓ} {P : A → Type κ} {one other : Run A} (test : Bool)
    → (test ≡ true → Returns P one)
    → (test ≡ false → Returns P other)
    → Returns P (if test then one else other)
Returns-if true yes_case no_case = yes_case refl
Returns-if false yes_case no_case = no_case refl

or_else {ℓ} : {A : Type ℓ} → A → Run A → A
or_else d fault = d
or_else d abort = d
or_else d (ok x) = x

pub ok-inj {ℓ} : {A : Type ℓ} {x y : A} → ok x ≡ ok y → x ≡ y
unfolding or_else
ok-inj {x} e = ap (or_else x) e

-- what a call that returns has returned
pub Returns-at {ℓ κ} :
    {A : Type ℓ} {P : A → Type κ} {call : Run A} {x : A} → Returns P call → call ≡ ok x → P x
Returns-at {P} {x} r e = subst P (ok-inj (sym r.ends ∙ e)) r.holds

-- a call after a call that returns
pub bind-inv {ℓ κ} :
    {A : Type ℓ} {B : Type κ} (call : Run A) (next : A → Run B) (g : B)
    → (call >>= next) ≡ ok g
    → (x : A) × (call ≡ ok x) × (next x ≡ ok g)
bind-inv fault next g e = cc
bind-inv abort next g e = cc
bind-inv (ok x) next g e = (x, refl, e)
