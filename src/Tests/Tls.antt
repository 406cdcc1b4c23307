-- ===== src/Tests/Tls.antt =====
-- tls.c with two threads.
use cthread.Base.{ℕ, ◌≡◌, List, [], ◌∷◌, Option, none, some, true, refl}
use cthread.Run.{Run, ok, fault, abort}
use cthread.Tls.{World, act, create_tls_key, fresh}
use cthread.Tls.Once.{is_some, create_tls_key-returned}

-- both threads enter, the second one spins while the first one makes the key, and both return
abbrev two_enter : List (ℕ × Option ℕ)
two_enter = (0, none) ∷ (1, none) ∷ (1, none) ∷ (0, some 7) ∷ (1, none) ∷ (0, none) ∷ (1, none) ∷ []

abbrev value_or : World → Run World → World
value_or d fault = d
value_or d abort = d
value_or d (ok w) = w

abbrev both_returned : World
both_returned = value_or fresh (create_tls_key two_enter fresh)

create_tls_key-returned_example :
    (both_returned.once ≡ 2) × (both_returned.made ≡ 1) × (is_some both_returned.key ≡ true)
unfolding create_tls_key act
create_tls_key-returned_example = create_tls_key-returned two_enter both_returned 1 refl refl
