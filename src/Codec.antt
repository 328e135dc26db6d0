-- ===== src/Codec.antt =====
-- flowcat-core/src/codec.rs: G.711 by tables, and `Resampler`, which feeds rubato blocks of one size
-- whatever the sizes of the chunks. rubato, the G.711 codec and the float operations are parameters.
-- The scratch buffers are written before they are read, so only what is read from them is kept, and
-- the views of them, which have the lengths that rubato asks for, do not fail.
pub mod Feed
pub mod Stream
pub mod Padding
pub mod Faults
pub mod Carry
mod Tests
use flowcat.Base.{
  ℕ, zero, suc, ◌+◌, ◌-◌, Bool, true, false, not, ◌||◌, List, [], ◌∷◌, ◌++◌, Option, none, some,
  map, length, take, drop, leb, ◌==◌, if◌then◌else◌, Outcome, ok, err, panic,
}
use flowcat.Base.Int.{ℤ}
use flowcat.Base.Text.{Text}
use flowcat.Frame.{F32}

-- The functions of `audio_codec_algorithms`.
pub record G711 : Type 0 where
  pub decode_ulaw : ℕ → ℤ
  pub encode_ulaw : ℤ → ℕ
  pub decode_alaw : ℕ → ℤ
  pub encode_alaw : ℤ → ℕ

module _ (g : G711) where
  unfoldable pub ulaw_to_pcm16 : List ℕ → List ℤ
  ulaw_to_pcm16 ulaw = map g.decode_ulaw ulaw

  unfoldable pub pcm16_to_ulaw : List ℤ → List ℕ
  pcm16_to_ulaw pcm = map g.encode_ulaw pcm

  unfoldable pub alaw_to_pcm16 : List ℕ → List ℤ
  alaw_to_pcm16 alaw = map g.decode_alaw alaw

  unfoldable pub pcm16_to_alaw : List ℤ → List ℕ
  pcm16_to_alaw pcm = map g.encode_alaw pcm

-- `BLOCK`
unfoldable pub block : ℕ
block = 256

-- `types::AudioChunk`
pub record AudioChunk : Type 0 where
  pub pcm : List ℤ
  pub sample_rate : ℕ

abbrev pub chunk : List ℤ → ℕ → AudioChunk
chunk pcm sample_rate = record { pcm = pcm; sample_rate = sample_rate }

-- `FlowcatError::Codec`, by its message.
pub data CodecError : Type 0 where
  invalid_rate : ℕ → ℕ → CodecError
  rubato_init : ℕ → ℕ → Text → CodecError
  wrong_rate : ℕ → ℕ → CodecError
  rubato_process rubato_flush : Text → CodecError

-- What the code takes from `f32`: `as f32` from an `i16`, `/`, `*`, `round`, `clamp` and `as i16`.
pub record SampleOps : Type 0 where
  pub of_int : ℤ → F32
  pub div : F32 → F32 → F32
  pub mul : F32 → F32 → F32
  pub round : F32 → F32
  pub clamp : F32 → F32 → F32 → F32
  pub to_i16 : F32 → ℤ

-- rubato's `Async<f32>`: `new_sinc` from the two rates at the parameters of the code, and
-- `process_into_buffer` on one block, with the frames that it writes.
pub record Rubato (R : Type 0) : Type 0 where
  pub new_sinc : ℕ → ℕ → Outcome Text R
  pub process_into_buffer : List F32 → R → Outcome Text (List F32) × R

pub record Resampler (R : Type 0) : Type 0 where
  pub from_rate : ℕ
  pub to_rate : ℕ
  pub inner : Option R
  pub in_buf : List ℤ

abbrev full_scale : F32
full_scale = 0x47000000

abbrev pub repeat {ℓ} : {A : Type ℓ} → ℕ → A → List A
repeat zero x = []
repeat (suc n) x = x ∷ repeat n x

-- `resize`
abbrev pub resize {ℓ} : {A : Type ℓ} → ℕ → A → List A → List A
resize n x xs = take n xs ++ repeat (n - length xs) x

abbrev pub is_none {ℓ} : {A : Type ℓ} → List A → Bool
is_none [] = true
is_none (x ∷ xs) = false

module _ (ops : SampleOps) where
  -- `s as f32 / 32768.0`
  unfoldable pub to_float : ℤ → F32
  to_float s = ops.div (ops.of_int s) full_scale

  unfoldable pub f32_to_i16 : F32 → ℤ
  f32_to_i16 s = ops.to_i16 (ops.clamp (ops.round (ops.mul s full_scale)) 0xc7000000 0x46fffe00)

module _ {R : Type 0} (rubato : Rubato R) where
  abbrev started : ℕ → ℕ → Outcome Text R → Outcome CodecError (Resampler R)
  started from_rate to_rate (ok inner) =
      ok (record { from_rate = from_rate; to_rate = to_rate; inner = some inner; in_buf = [] })
  started from_rate to_rate (err e) = err (rubato_init from_rate to_rate e)
  started from_rate to_rate panic = panic

  -- `Resampler::new`
  unfoldable pub new_resampler : ℕ → ℕ → Outcome CodecError (Resampler R)
  new_resampler from_rate to_rate =
      if from_rate == 0 || to_rate == 0
      then err (invalid_rate from_rate to_rate)
      else if from_rate == to_rate
      then ok (record { from_rate = from_rate; to_rate = to_rate; inner = none; in_buf = [] })
      else started from_rate to_rate (rubato.new_sinc from_rate to_rate)

module _ {R : Type 0} where
  -- `?`, and then the rest of the loop.
  abbrev pub on_frames :
      Outcome Text (List F32) × R
      → (List F32 → R → Outcome CodecError (List ℤ × ℕ) × R)
      → Outcome CodecError (List ℤ × ℕ) × R
  on_frames (ok frames, inner) next = next frames inner
  on_frames (err e, inner) next = (err (rubato_process e), inner)
  on_frames (panic, inner) next = (panic, inner)

  -- On an error the function returns before it drops what it has consumed.
  abbrev pub after_feed :
      List ℤ
      → Outcome CodecError (List ℤ × ℕ) × R
      → Resampler R
      → Outcome CodecError AudioChunk × Resampler R
  after_feed in_buf (ok (out, consumed), inner) r =
      (ok (chunk out r.to_rate), record r { inner = some inner; in_buf = drop consumed in_buf })
  after_feed in_buf (err e, inner) r = (err e, record r { inner = some inner; in_buf = in_buf })
  after_feed in_buf (panic, inner) r = (panic, record r { inner = some inner; in_buf = in_buf })

module _ {R : Type 0} (ops : SampleOps) (rubato : Rubato R) where
  -- One turn of the loop in `process`, up to the frames that rubato gives.
  unfoldable pub convert_block : List ℤ → R → Outcome Text (List F32) × R
  convert_block samples inner = rubato.process_into_buffer (map (to_float ops) samples) inner

  -- The loop of `process`, with what it has put out and how much it has consumed. Each turn costs a
  -- unit of fuel.
  unfoldable pub feed_blocks : ℕ → List ℤ → ℕ → List ℤ → R → Outcome CodecError (List ℤ × ℕ) × R
  feed_blocks zero in_buf consumed out inner = (ok (out, consumed), inner)
  feed_blocks (suc fuel) in_buf consumed out inner =
      if leb block (length in_buf - consumed)
      then on_frames (convert_block (take block (drop consumed in_buf)) inner) (λ frames inner'.
        feed_blocks fuel in_buf (consumed + block) (out ++ map (f32_to_i16 ops) frames) inner')
      else (ok (out, consumed), inner)

  abbrev pub resample :
      Option R → List ℤ → Resampler R → Outcome CodecError AudioChunk × Resampler R
  resample none pcm r = (ok (chunk pcm r.to_rate), r)
  resample (some inner) pcm r =
      let in_buf = r.in_buf ++ pcm in
      after_feed in_buf (feed_blocks (length in_buf) in_buf 0 [] inner) r

  -- `Resampler::process`
  unfoldable pub process_chunk :
      AudioChunk → Resampler R → Outcome CodecError AudioChunk × Resampler R
  unfolding feed_blocks
  process_chunk input r =
      if input.sample_rate == r.from_rate
      then resample r.inner input.pcm r
      else (err (wrong_rate r.from_rate input.sample_rate), r)

  abbrev pub after_flush :
      Outcome Text (List F32) × R → Resampler R → Outcome CodecError AudioChunk × Resampler R
  after_flush (ok frames, inner) r = (
    ok (chunk (map (f32_to_i16 ops) frames) r.to_rate),
    record r { inner = some inner; in_buf = [] },
  )
  after_flush (err e, inner) r =
      (err (rubato_flush e), record r { inner = some inner; in_buf = [] })
  after_flush (panic, inner) r = (panic, record r { inner = some inner; in_buf = [] })

  abbrev pub flush_inner : Option R → Resampler R → Outcome CodecError AudioChunk × Resampler R
  flush_inner none r = (ok (chunk [] r.to_rate), r)
  flush_inner (some inner) r =
      if is_none r.in_buf
      then (ok (chunk [] r.to_rate), r)
      else after_flush
          (rubato.process_into_buffer (resize block 0 (map (to_float ops) r.in_buf)) inner) r

  -- `Resampler::flush`
  unfoldable pub flush_resampler : Resampler R → Outcome CodecError AudioChunk × Resampler R
  flush_resampler r = flush_inner r.inner r
