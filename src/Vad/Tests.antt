-- ===== src/Vad/Tests.antt =====
-- A mock that hears speech in the windows its script says, each debounce three windows long, and its
-- processor.
use flowcat.Base.{◌≡◌, refl, true, false, List, [], ◌∷◌, ◌++◌, some, arith}
use flowcat.Base.Int.{ℤ, pos}
use flowcat.Frame.{F32, Frame, downstream, mono, input_audio, bot_started_speaking}
use flowcat.Runtime.{Envelope, new_meta}
use flowcat.Vad.{
  Rounding, VadStateMachine, speaking, stopping, new, default_params, is_speech, advance,
}
use flowcat.Vad.Debounce.{observe_all, view, heard_in, IsCounting, run, run_lem, new-IsCounting}
use flowcat.Vad.Stream.{
  VadProcessor, MockVad, mock_vad, new_processor, hear_audio, process_frame, is_talking, broadcast,
  push_down,
}
use flowcat.Vad.Stream.Edges as Edges
use flowcat.Vad.Stream.Edges.{Alternates, IsInStep, edges, run-Alternates}

abbrev rounding : Rounding
rounding = record { of_int = λ n. n; div = λ a b. 0x3f800000; round = λ x. x; to_u32 = λ x. 3 }

abbrev machine : VadStateMachine
machine = new rounding 16000 2 default_params

-- A loud window and a silent one.
abbrev loud : F32 × F32
loud = (0x3f800000, 0x3f800000)

abbrev silent : F32 × F32
silent = (0, 0)

abbrev heard : List (F32 × F32)
heard = loud ∷ loud ∷ silent ∷ loud ∷ loud ∷ loud ∷ silent ∷ []

stops_after_confirming : (run heard machine).state ≡ stopping
unfolding run advance is_speech new default_params
stops_after_confirming = refl

machine_counts : IsCounting machine
machine_counts = new-IsCounting rounding (λ x. omega arith) 16000 2 default_params

run_lem_example :
    (view (run heard machine) ≡ observe_all 3 3 (heard_in machine.params heard) (view machine))
    × IsCounting (run heard machine)
unfolding new
run_lem_example = run_lem heard machine machine_counts

abbrev mock : MockVad
mock = record {
  sm = machine;
  window_samples = 2;
  script = some (0x3f800000 ∷ 0x3f800000 ∷ 0x3f800000 ∷ 0 ∷ []);
  script_pos = 0;
}

abbrev no_volume : List ℤ → F32
no_volume pcm = 0

abbrev processor : VadProcessor MockVad
processor = new_processor rounding (mock_vad rounding no_volume) mock 2

abbrev three_samples : List ℤ
three_samples = pos 1 ∷ pos 2 ∷ pos 3 ∷ []

abbrev four_samples : List ℤ
four_samples = pos 4 ∷ pos 5 ∷ pos 6 ∷ pos 7 ∷ []

abbrev arrives : Frame → Envelope
arrives frame = record { meta = new_meta 1 frame; frame = frame; direction = downstream }

abbrev call : List Envelope
call =
    arrives bot_started_speaking
    ∷ arrives (input_audio (mono (three_samples ++ four_samples) 16000))
    ∷ arrives (input_audio (mono (three_samples ++ four_samples) 16000))
    ∷ []

one_start_one_stop : edges (Edges.run rounding no_volume call processor).0 ≡ true ∷ false ∷ []
unfolding edges process_frame new_processor flowcat.Vad.Stream.mock_analyze advance new
    default_params
one_start_one_stop = refl

run-Alternates_example :
    Alternates false
      (edges (Edges.run rounding no_volume call processor).0)
      (is_talking (Edges.run rounding no_volume call processor).1.last_state)
    × IsInStep (Edges.run rounding no_volume call processor).1
unfolding new_processor new
run-Alternates_example = run-Alternates rounding no_volume call processor refl
