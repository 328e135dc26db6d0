-- ===== src/Runtime/Drain.antt =====
-- What an interruption does to the queue: interruptible frames are dropped, the others are forwarded in
-- order up to the first downstream terminal, which is handed back.
use flowcat.Base.{
  ◌≡◌, refl, Bool, true, false, ◌&&◌, List, [], ◌∷◌, ◌++◌, none, some, arith, All, keep_if,
}
use flowcat.Frame.{uninterruptible}
use flowcat.Runtime.{Envelope, is_kept_terminal, drain_on_interruption}

-- A frame that the drain hands back: a downstream terminal that survives interruption.
abbrev pub ends_drain : Envelope → Bool
ends_drain env = uninterruptible env.frame && is_kept_terminal env

abbrev pub survives : Envelope → Bool
survives env = uninterruptible env.frame

-- With no such frame queued, the drain empties the queue and forwards exactly the uninterruptible
-- frames, in order.
pub drain-clean :
    (queue : List Envelope)
    → All (λ env. ends_drain env ≡ false) queue
    → drain_on_interruption queue
      ≡ record { forwarded = keep_if survives queue; terminal = none; left = [] }
unfolding drain_on_interruption
drain-clean [] h = refl
drain-clean (env ∷ queue) (h, hs) = ground (arith, drain-clean queue hs)

-- Otherwise it does so before the first such frame, hands that back, and leaves what stands behind.
pub drain-terminal :
    (before : List Envelope) (env : Envelope) (behind : List Envelope)
    → All (λ e. ends_drain e ≡ false) before
    → ends_drain env ≡ true
    → drain_on_interruption (before ++ env ∷ behind)
      ≡ record { forwarded = keep_if survives before; terminal = some env; left = behind }
unfolding drain_on_interruption
drain-terminal [] env behind h t = ground arith
drain-terminal (e ∷ before) env behind (h, hs) t =
    ground (arith, drain-terminal before env behind hs t)
