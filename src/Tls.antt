-- ===== src/Tls.antt =====
-- tls.c: create_tls_key, called by any number of threads of the system in any order. `World` is
-- `*ponce`, `*pkey` and the place in the function at which each thread is; a step of a thread is
-- one access to the shared variables, in the order in which they take place.
pub mod Once
use cthread.Base.{ℕ, ◌+◌, List, [], ◌∷◌, Option, none, some, ◌==◌, if◌then◌else◌, update}
use cthread.Run.{Run, ok, abort, ◌>>=◌}

-- before the compare-and-exchange; before the key is made; before `*ponce` is set to 2; in the loop;
-- and after the return
pub data Place : Type 0 where
  entering : Place
  making : Place
  publishing : Place
  spinning : Place
  returned : Place

pub record World : Type 0 where
  pub once : ℕ
  pub key : Option ℕ
  pub made : ℕ
  pub place : ℕ → Place

-- a step of the thread `t`; `new` is the key of pthread_key_create or TlsAlloc, or none if it fails
unfoldable pub act : Option ℕ → ℕ → World → Place → Run World
act new t w entering = ok (
    if w.once == 0
    then record w { once = 1; place = update w.place t making }
    else record w { place = update w.place t spinning })
act none t w making = abort
act (some k) t w making =
    ok (record w { key = some k; made = w.made + 1; place = update w.place t publishing })
act new t w publishing = ok (record w { once = 2; place = update w.place t returned })
act new t w spinning =
    ok (if w.once == 1 then w else record w { place = update w.place t returned })
act new t w returned = ok w

-- the steps of a schedule, which names a thread for each
unfoldable pub create_tls_key : List (ℕ × Option ℕ) → World → Run World
create_tls_key [] w = ok w
create_tls_key ((t, new) ∷ rest) w = act new t w (w.place t) >>= create_tls_key rest

-- `*ponce` is 0, and no thread has entered
abbrev pub fresh : World
fresh = record { once = 0; key = none; made = 0; place = λ t. entering }
