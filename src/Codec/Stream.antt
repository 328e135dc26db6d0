-- ===== src/Codec/Stream.antt =====
-- flowcat-core/src/codec.rs: where rubato takes every block, the resampler's output does not depend on how the
-- stream is cut into chunks.
use mathlib.Core.List.{append_assoc, append-nil}
use flowcat.Base.{
  ℕ, zero, suc, ◌≡◌, refl, sym, ap, ◌∙◌, inl, inr, List, [], ◌++◌, Option, none, some, map, length,
  take, drop, leb, ◌==◌, Bool-cases, if_true, if_false, leb→le, leb→lt, Outcome, ok, err, panic,
  ◌>>=◌,
}
use flowcat.Base.Int.{ℤ}
use flowcat.Base.Blocks.{blocks, blocks-whole, blocks-short, blocks-join}
use flowcat.Frame.{F32}
use flowcat.Codec.{
  block, AudioChunk, chunk, CodecError, wrong_rate, SampleOps, Rubato, Resampler, to_float,
  f32_to_i16, feed_blocks, after_feed, resample, process_chunk,
}
use flowcat.Codec.Feed.{Takes, put_block, settled, resample-settled, block-pos}

-- What two chunks give, as one.
abbrev pub joined :
    Outcome CodecError AudioChunk → Outcome CodecError AudioChunk → Outcome CodecError AudioChunk
joined o p = o >>= λ c. p >>= λ d. ok (chunk (c.pcm ++ d.pcm) d.sample_rate)

module _ {R : Type 0} (ops : SampleOps) (rubato : Rubato R) where
  after_feed-from_rate :
      (buf : List ℤ) (result : Outcome CodecError (List ℤ × ℕ) × R) (r : Resampler R)
      → (after_feed buf result r).1.from_rate ≡ r.from_rate
  after_feed-from_rate buf (ok (out, consumed), s) r = refl
  after_feed-from_rate buf (err e, s) r = refl
  after_feed-from_rate buf (panic, s) r = refl

  pub resample-from_rate :
      (o : Option R) (pcm : List ℤ) (r : Resampler R)
      → (resample ops rubato o pcm r).1.from_rate ≡ r.from_rate
  resample-from_rate none pcm r = refl
  resample-from_rate (some s) pcm r =
      let buf = r.in_buf ++ pcm in
      after_feed-from_rate buf (feed_blocks ops rubato (length buf) buf 0 [] s) r

module _ {R : Type 0} (ops : SampleOps) (rubato : Rubato R)
    (convert : List F32 → R → List F32 × R) where
  abbrev prefixed : List ℤ → List ℤ × (List ℤ × R) → List ℤ × (List ℤ × R)
  prefixed o left = (left.0, (o ++ left.1.0, left.1.1))

  blocks-prefixed :
      (fuel : ℕ) (buffer o p : List ℤ) (s : R)
      → blocks block (put_block ops rubato convert) fuel buffer (o ++ p, s)
        ≡ prefixed o (blocks block (put_block ops rubato convert) fuel buffer (p, s))
  unfolding blocks
  blocks-prefixed zero buffer o p s = refl
  blocks-prefixed (suc fuel) buffer o p s = elim (Bool-cases (leb block (length buffer))) [
    | inr short ↦
        let less = leb→lt block (length buffer) short in
        blocks-short block (put_block ops rubato convert) (suc fuel) buffer (o ++ p, s) less
        ∙ sym (
            ap (prefixed o)
              (blocks-short block (put_block ops rubato convert) (suc fuel) buffer (p, s) less))
    | inl whole ↦
        let more = leb→le block (length buffer) whole in
        let made = convert (map (to_float ops) (take block buffer)) s in
        let frames = map (f32_to_i16 ops) made.0 in
        blocks-whole block (put_block ops rubato convert) fuel buffer (o ++ p, s) more
        ∙ ap
            (λ (out : List ℤ).
              blocks block (put_block ops rubato convert) fuel (drop block buffer) (out, made.1))
            (append_assoc o p frames)
        ∙ blocks-prefixed fuel (drop block buffer) o (p ++ frames) made.1
        ∙ sym (
            ap (prefixed o)
              (blocks-whole block (put_block ops rubato convert) fuel buffer (p, s) more))
  ]

  module _ (takes : Takes rubato convert) where
    -- Two chunks behind the test of their rate.
    resample-append :
        (s : R) (xs ys : List ℤ) (r : Resampler R)
        → resample ops rubato (some s) (xs ++ ys) r ≡ (
            let first = resample ops rubato (some s) xs r in
            let second = resample ops rubato first.1.inner ys first.1 in
            (joined first.0 second.0, second.1))
    resample-append s xs ys r =
        let b = r.in_buf ++ xs in
        let now = blocks block (put_block ops rubato convert) (length b) b ([], s) in
        let then_ =
          blocks block (put_block ops rubato convert) (length (now.0 ++ ys)) (now.0 ++ ys)
            ([], now.1.1) in
        resample-settled ops rubato convert takes s (xs ++ ys) r
        ∙ ap
            (λ (c : List ℤ).
              settled ops rubato convert r
                (blocks block (put_block ops rubato convert) (length c) c ([], s)))
            (sym (append_assoc r.in_buf xs ys))
        ∙ ap (settled ops rubato convert r)
            (blocks-join block (put_block ops rubato convert) block-pos b ys ([], s))
        ∙ ap
            (λ (o : List ℤ). settled ops rubato convert r (
              blocks block (put_block ops rubato convert) (length (now.0 ++ ys)) (now.0 ++ ys)
                (o, now.1.1)))
            (sym (append-nil now.1.0))
        ∙ ap (settled ops rubato convert r)
            (blocks-prefixed (length (now.0 ++ ys)) (now.0 ++ ys) now.1.0 [] now.1.1)
        ∙ sym (
            ap
              (λ (o : Outcome CodecError AudioChunk × Resampler R).
                (joined (settled ops rubato convert r now).0 o.0, o.1))
              (resample-settled ops rubato convert takes now.1.1 ys
                (settled ops rubato convert r now).1))
        ∙ sym (
            ap
              (λ (first : Outcome CodecError AudioChunk × Resampler R).
                (let second = resample ops rubato first.1.inner ys first.1 in
                  (joined first.0 second.0, second.1)))
              (resample-settled ops rubato convert takes s xs r))

    abbrev both :
        List ℤ
        → ℕ
        → Outcome CodecError AudioChunk × Resampler R
        → Outcome CodecError AudioChunk × Resampler R
    both ys rate first =
        let second = process_chunk ops rubato (chunk ys rate) first.1 in
        (joined first.0 second.0, second.1)

    any_inner-append :
        (o : Option R) (xs ys : List ℤ) (r : Resampler R)
        → r.inner ≡ o
        → resample ops rubato o (xs ++ ys) r ≡ (
            let first = resample ops rubato o xs r in
            let second = resample ops rubato first.1.inner ys first.1 in
            (joined first.0 second.0, second.1))
    any_inner-append (some s) xs ys r same = resample-append s xs ys r
    any_inner-append none xs ys r same =
        ap
          (λ (o : Option R). (
            joined (ok (chunk xs r.to_rate)) (resample ops rubato o ys r).0,
            (resample ops rubato o ys r).1,
          ))
          (sym same)

    -- Where rubato takes every block, two chunks of one rate give together, in output and state, what their samples give
    -- as one chunk; at another rate than the resampler's both give the error of one.
    pub process_chunk-append :
        (xs ys : List ℤ) (rate : ℕ) (r : Resampler R)
        → process_chunk ops rubato (chunk (xs ++ ys) rate) r ≡ (
            let first = process_chunk ops rubato (chunk xs rate) r in
            let second = process_chunk ops rubato (chunk ys rate) first.1 in
            (joined first.0 second.0, second.1))
    unfolding process_chunk
    process_chunk-append xs ys rate r = elim (Bool-cases (rate == r.from_rate)) [
      | inr other ↦
          if_false _ _ other
          ∙ sym (
              ap
                (λ (second : Outcome CodecError AudioChunk × Resampler R).
                  (joined (err (wrong_rate r.from_rate rate)) second.0, second.1))
                (if_false _ _ other))
          ∙ sym (ap (both ys rate) (if_false _ _ other))
      | inl same ↦
          if_true _ _ same
          ∙ any_inner-append r.inner xs ys r refl
          ∙ sym (
              ap
                (λ (second : Outcome CodecError AudioChunk × Resampler R).
                  (joined (resample ops rubato r.inner xs r).0 second.0, second.1))
                (if_true _ _
                  (ap (λ k. rate == k) (resample-from_rate ops rubato r.inner xs r) ∙ same)))
          ∙ sym (ap (both ys rate) (if_true _ _ same))
    ]
