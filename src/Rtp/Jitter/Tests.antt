-- ===== src/Rtp/Jitter/Tests.antt =====
-- Runs of the jitter buffer on concrete packets, and each result at an input that meets its
-- hypotheses.
use flowcat.Base.{ℕ, ◌≡◌, refl, true, false, List, [], ◌∷◌, ◌++◌, none, some, arith, ◌%◌}
use flowcat.Rtp.{RtpPacket}
use flowcat.Rtp.Jitter.{JitterBuffer, new, push, drain, run, reset, seq_lt}
use flowcat.Rtp.Jitter.Serial.{seq_lt-offset}
use flowcat.Rtp.Jitter.Window.{Ascends, IsWindow, with_depth-IsWindow}
use flowcat.Rtp.Jitter.Playout.{Plays, push-Plays, run-drain-Ascends}
use flowcat.Rtp.Jitter.Lossless.{push-reset}

abbrev packet : ℕ → RtpPacket
packet seq = record {
  payload_type = 0;
  seq = seq;
  timestamp = 0;
  ssrc = 1;
  marker = false;
  payload = seq % 256 ∷ [];
}

-- Reordered across the wrap, with a repeat and a late packet.
abbrev arrivals : List RtpPacket
arrivals = packet 65535 ∷ packet 1 ∷ packet 0 ∷ packet 0 ∷ packet 3 ∷ packet 65535 ∷ packet 2 ∷ []

arrivals_in_order :
    (run new arrivals).0 ++ (drain (run new arrivals).1).0
    ≡ packet 65535 ∷ packet 0 ∷ packet 1 ∷ packet 2 ∷ packet 3 ∷ []
unfolding new run drain
arrivals_in_order = refl

new-IsWindow : IsWindow 65535 new
unfolding new
new-IsWindow = with_depth-IsWindow 65535 2 (omega arith)

seq_lt-offset_example : seq_lt 65535 1 ≡ true
seq_lt-offset_example =
    seq_lt-offset 65530 65535 1 (omega arith) (omega arith) (omega arith) (omega arith)
      (omega arith)

push-Plays_example : Plays 65535 new (push new (packet 0))
push-Plays_example = push-Plays 65535 new (packet 0) new-IsWindow (omega arith)

run-drain-Ascends_example : Ascends 65535 0 ((run new arrivals).0 ++ (drain (run new arrivals).1).0)
unfolding new
run-drain-Ascends_example = run-drain-Ascends 65535 new arrivals new-IsWindow (omega arith)

abbrev stale : JitterBuffer
stale = record { buf = packet 900 ∷ []; depth = 2; last_released = some 899; primed = true }

push-reset_example :
    push (reset stale) (packet 3)
    ≡ ([], record { buf = packet 3 ∷ []; depth = 2; last_released = none; primed = false })
push-reset_example = push-reset stale (packet 3) (omega arith)
