-- ===== src/Codec/Carry.antt =====
-- flowcat-core/src/codec.rs: what `Resampler::process` holds for the next call, where rubato takes every block.
use flowcat.Base.{◌<◌, ◌≡◌, ap, ◌∙◌, List, [], ◌++◌, some, length, if_true, ==_self, arith, ok}
use flowcat.Base.Int.{ℤ}
use flowcat.Base.Blocks.{blocks, blocks-left, blocks-IsCut, IsCut}
use flowcat.Frame.{F32}
use flowcat.Codec.{block, chunk, SampleOps, Rubato, Resampler, resample, process_chunk}
use flowcat.Codec.Feed.{Takes, put_block, resample-settled, block-pos}

module _ {R : Type 0} (ops : SampleOps) (rubato : Rubato R)
    (convert : List F32 → R → List F32 × R) where
  -- A call that succeeds at the rate `to_rate`, takes whole blocks off the front of the samples, and holds the rest, which
  -- is less than a block.
  abbrev pub Carries : Resampler R → List ℤ → Type 0
  Carries r pcm =
      (out : List ℤ) × ((left : List ℤ) × ((s : R) × ((process_chunk ops rubato
                (chunk pcm r.from_rate) r
              ≡ (ok (chunk out r.to_rate), record r { inner = some s; in_buf = left }))
            × (IsCut block (r.in_buf ++ pcm) left × (length left < block)))))

  -- Where rubato takes every block, a call at the rate of the resampler succeeds whatever the chunk's length, its output is
  -- tagged at `to_rate`, whole blocks are taken off the front of what was held and the chunk, and the rest is held, which
  -- is less than a block.
  pub process_chunk-Carries :
      (takes : Takes rubato convert) (s : R) (pcm : List ℤ) (r : Resampler R)
      → r.inner ≡ some s
      → Carries r pcm
  unfolding process_chunk
  process_chunk-Carries takes s pcm r running =
      let step = put_block ops rubato convert in
      let buf = r.in_buf ++ pcm in
      let now = blocks block step (length buf) buf ([], s) in
      (
        now.1.0,
        (
          now.0,
          (
            now.1.1,
            (
              if_true _ _ (==_self r.from_rate)
                  ∙ ap (λ o. resample ops rubato o pcm r) running
                  ∙ resample-settled ops rubato convert takes s pcm r,
              (
                blocks-IsCut block step (length buf) buf ([], s),
                blocks-left block step block-pos (length buf) buf ([], s) (omega arith),
              ),
            ),
          ),
        ),
      )
