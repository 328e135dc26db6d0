-- ===== src/Codec/Tests.antt =====
-- flowcat-core/src/codec.rs: a resampler that keeps every sample, and one that fails at its second block.
use flowcat.Base.{ℕ, zero, suc, ◌-◌, ◌≡◌, refl, List, [], ◌∷◌, ◌++◌, some, length, arith, ok, err}
use flowcat.Base.Int.{ℤ, pos, negsuc}
use flowcat.Base.Text.{codes}
use flowcat.Frame.{F32}
use flowcat.Codec.{
  block, AudioChunk, chunk, rubato_process, invalid_rate, SampleOps, Rubato, Resampler, to_float,
  f32_to_i16, repeat, new_resampler, process_chunk, flush_resampler, feed_blocks, convert_block,
}
use flowcat.Codec.Stream.{joined, process_chunk-append}
use flowcat.Codec.Padding.{flush_resampler-silence}
use flowcat.Codec.Faults.{IsRefed, process_chunk-IsRefed}
use flowcat.Codec.Carry.{Carries, process_chunk-Carries}

-- Samples that are not negative, as their own floats.
abbrev plain : SampleOps
plain = record {
  of_int = λ n. elim n [ pos k ↦ k | negsuc k ↦ 0 ];
  div = λ a b. a;
  mul = λ a b. a;
  round = λ a. a;
  clamp = λ a lo hi. a;
  to_i16 = λ a. pos a;
}

-- The state counts the blocks.
abbrev keep_all : List F32 → ℕ → List F32 × ℕ
keep_all xs n = (xs, suc n)

abbrev faithful : Rubato ℕ
faithful = record {
  new_sinc = λ from to. ok 0;
  process_into_buffer = λ xs n. (ok (keep_all xs n).0, (keep_all xs n).1);
}

-- It fails at its second block.
abbrev failing : Rubato ℕ
failing = record {
  new_sinc = λ from to. ok 0;
  process_into_buffer = λ xs n. elim n [
    | zero ↦ (ok (length xs ∷ []), 1)
    | suc zero ↦ (err (codes "full"), 2)
    | suc (suc k) ↦ (ok (length xs ∷ []), suc (suc (suc k)))
  ];
}

abbrev holding : List ℤ → Resampler ℕ
holding samples = record { from_rate = 8000; to_rate = 16000; inner = some 0; in_buf = samples }

starts : new_resampler faithful 8000 16000 ≡ ok (holding [])
unfolding new_resampler
starts = refl

refuses_zero : new_resampler faithful 0 16000 ≡ err (invalid_rate 0 16000)
unfolding new_resampler
refuses_zero = refl

-- Two blocks and three samples: the first block is taken before the second fails.
abbrev long : AudioChunk
long = chunk (repeat 515 (pos 1)) 8000

long_fails : (process_chunk plain failing long (holding [])).0 ≡ err (rubato_process (codes "full"))
unfolding process_chunk feed_blocks convert_block to_float f32_to_i16 block
long_fails = refl

-- All 515 samples are still held, so that the next call feeds the first block again: three blocks come out of the 515
-- samples, the first of them at the failed call, where its output is lost.
fed_again :
    (process_chunk plain failing
      (chunk [] 8000)
      (process_chunk plain failing long (holding [])).1).0
    ≡ ok (chunk (pos 256 ∷ pos 256 ∷ []) 16000)
unfolding process_chunk feed_blocks convert_block to_float f32_to_i16 block
fed_again = refl

process_chunk-IsRefed_example :
    IsRefed plain failing long
      (codes "full")
      (holding [])
      (process_chunk plain failing long (holding [])).1
process_chunk-IsRefed_example =
    process_chunk-IsRefed plain failing long (holding []) (codes "full") long_fails

process_chunk-Carries_example :
    Carries plain faithful keep_all (holding (pos 3 ∷ [])) (repeat 300 (pos 1))
process_chunk-Carries_example =
    process_chunk-Carries plain faithful keep_all (λ xs n full. refl) 0 (repeat 300 (pos 1))
      (holding (pos 3 ∷ [])) refl

process_chunk-append_example :
    process_chunk plain faithful
      (chunk (repeat 300 (pos 1) ++ repeat 300 (pos 2)) 8000)
      (holding (pos 3 ∷ []))
    ≡ (
      joined
          (process_chunk plain faithful (chunk (repeat 300 (pos 1)) 8000) (holding (pos 3 ∷ []))).0
          (process_chunk plain faithful
            (chunk (repeat 300 (pos 2)) 8000)
            (process_chunk plain faithful
              (chunk (repeat 300 (pos 1)) 8000)
              (holding (pos 3 ∷ []))).1).0,
      (process_chunk plain faithful
          (chunk (repeat 300 (pos 2)) 8000)
          (process_chunk plain faithful
            (chunk (repeat 300 (pos 1)) 8000)
            (holding (pos 3 ∷ []))).1).1,
    )
process_chunk-append_example =
    process_chunk-append plain faithful keep_all (λ xs n full. refl) (repeat 300 (pos 1))
      (repeat 300 (pos 2)) 8000 (holding (pos 3 ∷ []))

flush_resampler-silence_example :
    flush_resampler plain faithful (holding (pos 3 ∷ []))
    ≡ process_chunk plain faithful (chunk (repeat (block - 1) (pos 0)) 8000) (holding (pos 3 ∷ []))
unfolding to_float block
flush_resampler-silence_example =
    flush_resampler-silence plain faithful keep_all (λ xs n full. refl) refl 0
      (holding (pos 3 ∷ [])) refl (omega arith) (omega arith)
