-- ===== src/Codec/Feed.antt =====
-- flowcat-core/src/codec.rs: the loop of `Resampler::process`, where rubato takes every block.
use flowcat.Base.{
  drop-drop, ℕ, zero, suc, ◌+◌, ◌-◌, ◌≤◌, ◌<◌, ◌≡◌, refl, sym, ap, subst, ◌∙◌, inl, inr, List, [],
  ◌∷◌, ◌++◌, some, map, length, take, drop, leb, arith, Bool-cases, if_true, if_false, leb→le,
  leb→lt, length-drop, Outcome, ok,
}
use flowcat.Base.Int.{ℤ}
use flowcat.Base.Blocks.{blocks, blocks-whole, blocks-short}
use flowcat.Frame.{F32}
use flowcat.Codec.{
  block, AudioChunk, chunk, CodecError, SampleOps, Rubato, Resampler, to_float, f32_to_i16,
  convert_block, on_frames, feed_blocks, after_feed, resample,
}

pub block-pos : 0 < block
unfolding block
block-pos = omega arith

-- rubato on a whole block: it never fails.
abbrev pub Takes : {R : Type 0} → Rubato R → (List F32 → R → List F32 × R) → Type 0
Takes {R} rubato convert =
    (xs : List F32) (s : R)
    → length xs ≡ block
    → rubato.process_into_buffer xs s ≡ (ok (convert xs s).0, (convert xs s).1)

pub length-map : {A B : Type 0} (f : A → B) (xs : List A) → length (map f xs) ≡ length xs
length-map f [] = refl
length-map f (x ∷ xs) = ap suc (length-map f xs)

length-take : {A : Type 0} (n : ℕ) (xs : List A) → n ≤ length xs → length (take n xs) ≡ n
length-take zero xs h = refl
length-take (suc n) [] h = absurd (omega arith)
length-take (suc n) (x ∷ xs) h = ap suc (length-take n xs (omega arith)) ∙ omega arith

module _ {R : Type 0} (ops : SampleOps) (rubato : Rubato R)
    (convert : List F32 → R → List F32 × R) where
  -- A block, with the output so far.
  abbrev pub put_block : List ℤ → List ℤ × R → List ℤ × R
  put_block samples s =
      let made = convert (map (to_float ops) samples) s.1 in
      (s.0 ++ map (f32_to_i16 ops) made.0, made.1)

  abbrev pub settled :
      Resampler R → List ℤ × (List ℤ × R) → Outcome CodecError AudioChunk × Resampler R
  settled r left =
      (ok (chunk left.1.0 r.to_rate), record r { inner = some left.1.1; in_buf = left.0 })

  -- The loop has taken blocks, and what is consumed of the buffer leaves the rest.
  abbrev Fed : List ℤ → Outcome CodecError (List ℤ × ℕ) × R → List ℤ × (List ℤ × R) → Type 0
  Fed buf result left = (k : ℕ) × ((result ≡ (ok (left.1.0, k), left.1.1)) × (drop k buf ≡ left.0))

  module _ (takes : Takes rubato convert) where
    feed_blocks-Fed :
        (fuel : ℕ) (buf : List ℤ) (c : ℕ) (out : List ℤ) (s : R)
        → Fed buf
            (feed_blocks ops rubato fuel buf c out s)
            (blocks block put_block fuel (drop c buf) (out, s))
    unfolding feed_blocks convert_block blocks
    feed_blocks-Fed zero buf c out s = (c, (refl, refl))
    feed_blocks-Fed (suc fuel) buf c out s = elim (Bool-cases (leb block (length buf - c))) [
      | inr short ↦ (
        c,
        (
          if_false _ _ short
              ∙ sym (
                  ap (λ (left : List ℤ × (List ℤ × R)). (ok (left.1.0, c), left.1.1))
                    (blocks-short block put_block (suc fuel) (drop c buf) (out, s)
                      (omega (arith, leb→lt block (length buf - c) short, length-drop c buf)))),
          sym (
              ap (λ (left : List ℤ × (List ℤ × R)). left.0)
                (blocks-short block put_block (suc fuel) (drop c buf) (out, s)
                  (omega (arith, leb→lt block (length buf - c) short, length-drop c buf)))),
        ),
      )
      | inl whole ↦
          let more : block ≤ length (drop c buf) =
            omega (arith, leb→le block (length buf - c) whole, length-drop c buf) in
          let window = map (to_float ops) (take block (drop c buf)) in
          let made = convert window s in
          let frames = map (f32_to_i16 ops) made.0 in
          let ih =
            subst
              (λ (b : List ℤ).
                Fed buf (feed_blocks ops rubato fuel buf (c + block) (out ++ frames) made.1)
                  (blocks block put_block fuel b (out ++ frames, made.1)))
              (sym (drop-drop c block buf))
              (feed_blocks-Fed fuel buf (c + block) (out ++ frames) made.1) in
          let one = takes window s (
            length-map (to_float ops) (take block (drop c buf))
            ∙ length-take block (drop c buf) more) in
          subst (Fed buf (feed_blocks ops rubato (suc fuel) buf c out s))
            (sym (blocks-whole block put_block fuel (drop c buf) (out, s) more))
            (
              ih.0,
              (
                if_true _ _ whole
                    ∙ ap
                        (λ o. on_frames o (λ fs s'.
                          feed_blocks ops rubato fuel buf (c + block)
                            (out ++ map (f32_to_i16 ops) fs) s'))
                        one
                    ∙ ih.1.0,
                ih.1.1,
              ),
            )
    ]

    -- A chunk is resampled block by block.
    pub resample-settled :
        (s : R) (pcm : List ℤ) (r : Resampler R)
        → resample ops rubato (some s) pcm r
          ≡ settled r (blocks block put_block (length (r.in_buf ++ pcm)) (r.in_buf ++ pcm) ([], s))
    resample-settled s pcm r =
        let buf = r.in_buf ++ pcm in
        let fed = feed_blocks-Fed (length buf) buf 0 [] s in
        let left = blocks block put_block (length buf) buf ([], s) in
        ap (λ (result : Outcome CodecError (List ℤ × ℕ) × R). after_feed buf result r) fed.1.0
        ∙ ap (λ (b : List ℤ). settled r (b, left.1)) fed.1.1
