-- ===== src/Codec/Padding.antt =====
-- flowcat-core/src/codec.rs: the flush at the end of a stream.
use flowcat.Base.{
  ℕ, zero, suc, ◌-◌, ◌≤◌, ◌<◌, ◌≡◌, refl, sym, ap, ap₂, ◌∙◌, List, [], ◌∷◌, ◌++◌, Option, some, map,
  length, take, drop, if◌then◌else◌, arith, if_true, ==_self, length-append, Outcome,
}
use flowcat.Base.Int.{ℤ, pos}
use flowcat.Base.Blocks.{blocks, blocks-whole, blocks-short, blocks-enough}
use flowcat.Frame.{F32}
use flowcat.Codec.{
  block, chunk, SampleOps, Rubato, Resampler, to_float, repeat, resize, is_none, resample,
  process_chunk, after_flush, flush_inner, flush_resampler,
}
use flowcat.Codec.Feed.{Takes, put_block, settled, resample-settled, block-pos, length-map}

module _ {A : Type 0} where
  take-all : (n : ℕ) (xs : List A) → length xs ≤ n → take n xs ≡ xs
  take-all zero [] h = refl
  take-all zero (x ∷ xs) h = absurd (omega arith)
  take-all (suc n) [] h = refl
  take-all (suc n) (x ∷ xs) h = ap (λ ys. x ∷ ys) (take-all n xs (omega arith))

  drop-all : (n : ℕ) (xs : List A) → length xs ≤ n → drop n xs ≡ []
  drop-all zero [] h = refl
  drop-all zero (x ∷ xs) h = absurd (omega arith)
  drop-all (suc n) [] h = refl
  drop-all (suc n) (x ∷ xs) h = drop-all n xs (omega arith)

  length-repeat : (n : ℕ) (x : A) → length (repeat n x) ≡ n
  length-repeat zero x = refl
  length-repeat (suc n) x = ap suc (length-repeat n x)

  if_some : {B : Type 0} (xs : List A) (b c : B) → 0 < length xs → (if is_none xs then b else c) ≡ c
  if_some [] b c h = absurd (omega arith)
  if_some (x ∷ xs) b c h = refl

module _ {A B : Type 0} (f : A → B) where
  map-append : (xs ys : List A) → map f (xs ++ ys) ≡ map f xs ++ map f ys
  map-append [] ys = refl
  map-append (x ∷ xs) ys = ap (λ zs. f x ∷ zs) (map-append xs ys)

  map-repeat : (n : ℕ) (x : A) → map f (repeat n x) ≡ repeat n (f x)
  map-repeat zero x = refl
  map-repeat (suc n) x = ap (λ zs. f x ∷ zs) (map-repeat n x)

module _ {R : Type 0} (ops : SampleOps) (rubato : Rubato R)
    (convert : List F32 → R → List F32 × R) where
  -- A buffer of one block is one turn of the loop.
  one_block :
      (buf : List ℤ) (s : R)
      → length buf ≡ block
      → blocks block (put_block ops rubato convert) (length buf) buf ([], s)
        ≡ ([], put_block ops rubato convert buf ([], s))
  one_block buf s full =
      let step = put_block ops rubato convert in
      blocks-enough block step block-pos (length buf) (suc (length buf)) buf ([], s) (omega arith)
        (omega arith)
      ∙ blocks-whole block step (length buf) buf ([], s) (omega (arith, full))
      ∙ ap₂ (λ (b c : List ℤ). blocks block step (length buf) b (step c ([], s)))
          (drop-all block buf (omega (arith, full))) (take-all block buf (omega (arith, full)))
      ∙ blocks-short block step (length buf) [] (step buf ([], s)) (omega (arith, block-pos))

  module _ (takes : Takes rubato convert) (silence : to_float ops (pos 0) ≡ 0) where
    padded :
        (buf : List ℤ)
        → length buf < block
        → resize block 0 (map (to_float ops) buf)
          ≡ map (to_float ops) (buf ++ repeat (block - length buf) (pos 0))
    padded buf less =
        let sized = length-map (to_float ops) buf in
        ap₂ (λ xs ys. xs ++ ys) (take-all block (map (to_float ops) buf) (omega (arith, sized)))
          (ap (λ n. repeat (block - n) 0) sized)
        ∙ ap (λ x. map (to_float ops) buf ++ repeat (block - length buf) x) (sym silence)
        ∙ ap (λ xs. map (to_float ops) buf ++ xs)
            (sym (map-repeat (to_float ops) (block - length buf) (pos 0)))
        ∙ sym (map-append (to_float ops) buf (repeat (block - length buf) (pos 0)))

    -- Where rubato takes every block and a zero sample is the zero float, flushing the rest of a block gives, in output
    -- and in state, what a chunk of silence gives that fills the block.
    pub flush_resampler-silence :
        (s : R) (r : Resampler R)
        → r.inner ≡ some s
        → 0 < length r.in_buf
        → length r.in_buf < block
        → flush_resampler ops rubato r
          ≡ process_chunk ops rubato
              (chunk (repeat (block - length r.in_buf) (pos 0)) r.from_rate)
              r
    unfolding flush_resampler process_chunk
    flush_resampler-silence s r running some_left less =
        let zeros = repeat (block - length r.in_buf) (pos 0) in
        let buf = r.in_buf ++ zeros in
        let full : length buf ≡ block =
          omega (
            arith,
            length-append r.in_buf zeros,
            length-repeat (block - length r.in_buf) (pos 0),
          ) in
        ap (λ (o : Option R). flush_inner ops rubato o r) running
        ∙ if_some r.in_buf _ _ some_left
        ∙ ap (λ (o : Outcome _ (List F32) × R). after_flush ops rubato o r)
            (ap (λ xs. rubato.process_into_buffer xs s) (padded r.in_buf less)
              ∙ takes (map (to_float ops) buf) s (length-map (to_float ops) buf ∙ full))
        ∙ sym (ap (settled ops rubato convert r) (one_block buf s full))
        ∙ sym (resample-settled ops rubato convert takes s zeros r)
        ∙ sym (ap (λ (o : Option R). resample ops rubato o zeros r) running)
        ∙ sym (if_true _ _ (==_self r.from_rate))
