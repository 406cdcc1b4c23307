-- ===== src/Tests/Overlapped.antt =====
-- evloop.windows.c on a system that reads 5 bytes and writes nothing at once.
use cthread.Base.{ℕ, ◌≤◌, ◌≡◌, refl, arith, [], ◌∷◌, none, some, ltb, if◌then◌else◌}
use cthread.Word.{pos, signed32}
use cthread.Overlapped.{Overlapped, Files, request, finish, ev_recv, ev_send, ev_finish}
use cthread.Overlapped.Ready.{
  InRange, ev_finish-InRange, Ready, nil, cons, listed, ev_recv-Ready, ev_recv-twice,
}

-- at most 5 bytes
abbrev five : ℕ → ℕ
five len = if ltb len 5 then len else 5

pub five-le : (len n : ℕ) → some (five len) ≡ some n → n ≤ len
five-le len n e = ground arith

pub none-le : (len n : ℕ) → none ≡ some n → n ≤ len
none-le len n e = ground arith

abbrev files : Files
files = record {
  read_file = λ fd buf len. some (five len);
  write_file = λ fd buf len. none;
  read_fits = λ fd buf len n e. five-le len n e;
  write_fits = λ fd buf len n e. none-le len n e;
}

-- the watch at 16 has ended
abbrev sixteen : Overlapped
sixteen = record { ready_list = 16; next = λ w. 0; finished = λ w. pos 0; closed = [] }

reads_five : ev_finish 32 (ev_recv files 32 7 900 4294967296 sixteen) ≡ pos 5
unfolding ev_finish ev_recv request finish signed32
reads_five = refl

ev_finish-InRange_example :
    InRange 4294967296 (some 5) (ev_finish 32 (ev_recv files 32 7 900 4294967296 sixteen))
    × InRange 4294967296 none (ev_finish 32 (ev_send files 32 7 900 4294967296 sixteen))
ev_finish-InRange_example = ev_finish-InRange files 32 7 900 4294967296 sixteen

sixteen-Ready : Ready sixteen.next 16 (16 ∷ [])
sixteen-Ready = cons (λ e. absurd (omega arith)) refl nil

ev_recv-Ready_example :
    Ready
      (ev_recv files 32 7 900 8 sixteen).next
      (ev_recv files 32 7 900 8 sixteen).ready_list
      (listed 32 (some 5) (16 ∷ []))
    × Ready
        (ev_send files 32 7 900 8 sixteen).next
        (ev_send files 32 7 900 8 sixteen).ready_list
        (listed 32 none (16 ∷ []))
unfolding request
ev_recv-Ready_example =
    ev_recv-Ready files 32 7 900 8 sixteen (16 ∷ []) sixteen-Ready (λ e. absurd (omega arith)) refl

ev_recv-twice_example :
    ¬ Ready
      (ev_recv files 32 7 900 8 (ev_recv files 32 7 900 8 sixteen)).next
      (ev_recv files 32 7 900 8 (ev_recv files 32 7 900 8 sixteen)).ready_list
      (32 ∷ 16 ∷ [])
unfolding request
ev_recv-twice_example =
    ev_recv-twice files 32 7 900 8 5 sixteen (32 ∷ 16 ∷ []) (λ e. absurd (omega arith)) refl
