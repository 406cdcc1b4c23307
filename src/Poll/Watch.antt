-- ===== src/Poll/Watch.antt =====
-- evloop.epoll.c: ev_watch.
use cthread.Base.{ℕ, Bool, true, false, not, List, none, ◌≡◌, ◌≢◌, ◌==◌, refl, arith, subst, ◌∙◌}
use cthread.Word.{ℤ}
use cthread.Run.{Returns, Returns-map, Returns-bind}
use cthread.Poll.{null, Polls, KHash, is_open, ev_watch}
use cthread.Poll.Inv.{side, poll_at, PollInv}
use cthread.Poll.Attach.{Watching, attach-lem}
use cthread.Poll.Obtain.{obtain-lem}

-- the watch that is registered for one side of a descriptor, or NULL
abbrev pub registered : (k : KHash) → Polls k.Table → ℤ → Bool → ℕ
registered k s fd read = side read (poll_at s (k.find s.pollers fd))

module _ (k : KHash) {s : Polls k.Table} {xs : List ℕ} (inv : PollInv k s xs) (fresh w : ℕ) (fd : ℤ)
    (read : Bool) (set : s.watch_fn w ≢ null) (free : registered k s fd read ≡ null) where
  -- On a well-formed state, for a watch with a function, a descriptor that is not negative, a side of
  -- it that nothing watches, and a block from `calloc` that is neither NULL nor in use, ev_watch
  -- returns without a fault. The state is well formed, the watch is on that side of the descriptor's
  -- poll, which is on the dirty list, the other side is as before, and so are all the functions.
  pub ev_watch_lem :
      is_open fd ≡ true
      → fresh ≢ null
      → s.poll fresh ≡ none
      → Returns
          (λ g. Watching k g w fd read (registered k s fd (not read)) × (g.watch_fn ≡ s.watch_fn))
          (ev_watch k fresh w fd read s)
  unfolding ev_watch
  ev_watch_lem u nz unused =
      let some_fn : (s.watch_fn w == null) ≡ false = ground arith in
      rw some_fn (
        Returns-bind (obtain-lem k inv fresh fd u nz unused (k.find s.pollers fd) refl) λ r o.
          let of_fd : is_open o.node.fd ≡ true = rw o.fd_eq u in
          Returns-map (attach-lem k o.inv w r.1 o.node o.here of_fd read (o.sides read ∙ free))
            λ g (at, fns). (
              subst (λ d. Watching k g w d read (registered k s fd (not read))) o.fd_eq
                  (subst (Watching k g w o.node.fd read) (o.sides (not read)) at),
              fns ∙ o.watch_fn,
            ))
