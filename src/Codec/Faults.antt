-- ===== src/Codec/Faults.antt =====
-- flowcat-core/src/codec.rs: what an error of rubato's in `Resampler::process` leads to at the next call.
use flowcat.Base.{
  ℕ, ◌+◌, take, drop, map, length-drop, drop-drop, ◌-◌, ◌≤◌, ◌≡◌, ◌≢◌, refl, sym, ap, subst, ◌∙◌,
  inl, inr, List, [], ◌++◌, Option, none, some, length, leb, leb→le, ◌==◌, ==_self, zero, suc,
  arith, Bool-cases, if_true, if_false, Outcome, ok, err, panic, err≢ok,
}
use flowcat.Base.Int.{ℤ}
use flowcat.Frame.{F32}
use flowcat.Base.Text.{Text}
use flowcat.Codec.{
  block, AudioChunk, chunk, CodecError, wrong_rate, rubato_process, SampleOps, Rubato, Resampler,
  feed_blocks, after_feed, convert_block, on_frames, f32_to_i16, resample, process_chunk,
}

err-injective : {E A : Type 0} {d e : E} → ◌≡◌ {A = Outcome E A} (err d) (err e) → d ≡ e
err-injective h = cc

rubato-injective : {d e : Text} → rubato_process d ≡ rubato_process e → d ≡ e
rubato-injective h = cc

panic≢err : {E A : Type 0} {e : E} → ◌≢◌ {A = Outcome E A} panic (err e)
panic≢err h = cc

wrong_rate-rubato : (a b : ℕ) (e : Text) → ◌≢◌ (wrong_rate a b) (rubato_process e)
wrong_rate-rubato a b e h = cc

module _ {R : Type 0} where
  -- What is held does not count for what a call leaves, nor does the state of rubato before it.
  after_feed-same :
      (buf : List ℤ) (result : Outcome CodecError (List ℤ × ℕ) × R) (r : Resampler R) (o : Option R)
      (held : List ℤ)
      → after_feed buf result (record r { inner = o; in_buf = held }) ≡ after_feed buf result r
  after_feed-same buf (ok (out, consumed), s) r o held = refl
  after_feed-same buf (err d, s) r o held = refl
  after_feed-same buf (panic, s) r o held = refl

  after_feed-err :
      (buf : List ℤ) (result : Outcome CodecError (List ℤ × ℕ) × R) (r : Resampler R)
      (e : CodecError)
      → (after_feed buf result r).0 ≡ err e
      → (result.0 ≡ err e)
        × ((after_feed buf result r).1 ≡ record r { inner = some result.1; in_buf = buf })
  after_feed-err buf (ok (out, consumed), s) r e h = absurd (err≢ok (sym h))
  after_feed-err buf (err d, s) r e h = (ap (λ c. err c) (err-injective h), refl)
  after_feed-err buf (panic, s) r e h = absurd (panic≢err h)

module _ {R : Type 0} (ops : SampleOps) (rubato : Rubato R) where
  -- rubato takes blocks off the front of the samples, and then gives an error at one, in the state that it is left in.
  pub data Fails : List ℤ → R → Text → R → Type 0 where
    refused :
        (buf : List ℤ) (s t : R) (e : Text)
        → block ≤ length buf
        → convert_block ops rubato (take block buf) s ≡ (err e, t)
        → Fails buf s e t
    took :
        (buf : List ℤ) (s between t : R) (frames : List F32) (e : Text)
        → block ≤ length buf
        → convert_block ops rubato (take block buf) s ≡ (ok frames, between)
        → Fails (drop block buf) between e t
        → Fails buf s e t

  -- rubato took blocks off the front of what was held and the chunk, before it failed at one; and the next call, with
  -- whatever is in its chunk, gives what a resampler that held nothing, with rubato in the state in which it failed, gives
  -- of all that was held, the chunk that failed and the new one.
  abbrev pub IsRefed : AudioChunk → Text → Resampler R → Resampler R → Type 0
  IsRefed input e r after =
      (s : R) × ((t : R) × ((r.inner ≡ some s)
          × ((after.inner ≡ some t)
              × (Fails (r.in_buf ++ input.pcm) s e t
                  × ((more : List ℤ)
                      → process_chunk ops rubato (chunk more r.from_rate) after
                        ≡ process_chunk ops rubato
                            (chunk ((r.in_buf ++ input.pcm) ++ more) r.from_rate)
                            (record r { inner = some t; in_buf = [] }))))))

  on_frames-Fails :
      (buf : List ℤ) (s : R) (e : Text) (d : Outcome Text (List F32) × R)
      (next : List F32 → R → Outcome CodecError (List ℤ × ℕ) × R)
      → block ≤ length buf
      → convert_block ops rubato (take block buf) s ≡ d
      → ((frames : List F32) (between : R)
          → (next frames between).0 ≡ err (rubato_process e)
          → Fails (drop block buf) between e (next frames between).1)
      → (on_frames d next).0 ≡ err (rubato_process e)
      → Fails buf s e (on_frames d next).1
  on_frames-Fails buf s e (ok frames, between) next whole now later h =
      took buf s between (next frames between).1 frames e whole now (later frames between h)
  on_frames-Fails buf s e (err d, t) next whole now later h =
      refused buf s t e whole (now ∙ ap (λ x. (err x, t)) (rubato-injective (err-injective h)))
  on_frames-Fails buf s e (panic, t) next whole now later h = absurd (panic≢err h)

  feed_blocks-Fails :
      (fuel : ℕ) (buf : List ℤ) (c : ℕ) (out : List ℤ) (s : R) (e : Text)
      → (feed_blocks ops rubato fuel buf c out s).0 ≡ err (rubato_process e)
      → Fails (drop c buf) s e (feed_blocks ops rubato fuel buf c out s).1
  unfolding feed_blocks
  feed_blocks-Fails zero buf c out s e h = absurd (err≢ok (sym h))
  feed_blocks-Fails (suc fuel) buf c out s e h = elim (Bool-cases (leb block (length buf - c))) [
    | inl whole ↦
        let next = λ (frames : List F32) (s' : R).
          feed_blocks ops rubato fuel buf (c + block) (out ++ map (f32_to_i16 ops) frames) s' in
        let d = convert_block ops rubato (take block (drop c buf)) s in
        let same = if_true (on_frames d next) (ok (out, c), s) whole in
        subst (λ (o : Outcome CodecError (List ℤ × ℕ) × R). Fails (drop c buf) s e o.1) (sym same)
          (on_frames-Fails (drop c buf) s e d next
            (omega (arith, leb→le block (length buf - c) whole, length-drop c buf)) refl
            (λ frames between k.
              subst (λ xs. Fails xs between e (next frames between).1) (sym (drop-drop c block buf))
                (feed_blocks-Fails fuel buf (c + block) (out ++ map (f32_to_i16 ops) frames) between
                  e k))
            (ap (λ (o : Outcome CodecError (List ℤ × ℕ) × R). o.0) (sym same) ∙ h))
    | inr short ↦ absurd (
        err≢ok (sym h ∙ ap (λ (o : Outcome CodecError (List ℤ × ℕ) × R). o.0) (if_false _ _ short)))
  ]

  next_call :
      (buf more : List ℤ) (s : R) (r : Resampler R)
      → process_chunk ops rubato
          (chunk more r.from_rate)
          (record r { inner = some s; in_buf = buf })
        ≡ process_chunk ops rubato
            (chunk (buf ++ more) r.from_rate)
            (record r { inner = some s; in_buf = [] })
  unfolding process_chunk
  next_call buf more s r =
      let all = buf ++ more in
      let fed = feed_blocks ops rubato (length all) all 0 [] s in
      if_true _ _ (==_self r.from_rate)
      ∙ after_feed-same all fed r (some s) buf
      ∙ sym (after_feed-same all fed r (some s) [])
      ∙ sym (if_true _ _ (==_self r.from_rate))

  resample-IsRefed :
      (o : Option R) (input : AudioChunk) (r : Resampler R) (e : Text)
      → r.inner ≡ o
      → (resample ops rubato o input.pcm r).0 ≡ err (rubato_process e)
      → IsRefed input e r (resample ops rubato o input.pcm r).1
  resample-IsRefed none input r e i h = absurd (err≢ok (sym h))
  resample-IsRefed (some s) input r e i h =
      let buf = r.in_buf ++ input.pcm in
      let fed = feed_blocks ops rubato (length buf) buf 0 [] s in
      let (failed, left) = after_feed-err buf fed r (rubato_process e) h in
      subst (IsRefed input e r) (sym left) (
        s,
        (
          fed.1,
          (
            i,
            (
              refl,
              (
                feed_blocks-Fails (length buf) buf 0 [] s e failed,
                λ more. next_call buf more fed.1 r,
              ),
            ),
          ),
        ),
      )

  -- Where rubato fails in a call, it has taken some blocks, or none, off the front of what was held and the chunk before the
  -- one it failed at, and the next call feeds it from the first of them again, in the state in which it failed: it gives,
  -- in output and state, what a resampler that held nothing gives of all that was held, the chunk that failed and the new
  -- one.
  pub process_chunk-IsRefed :
      (input : AudioChunk) (r : Resampler R) (e : Text)
      → (process_chunk ops rubato input r).0 ≡ err (rubato_process e)
      → IsRefed input e r (process_chunk ops rubato input r).1
  unfolding process_chunk
  process_chunk-IsRefed input r e h = elim (Bool-cases (input.sample_rate == r.from_rate)) [
    | inl same ↦
        let now = if_true _ _ same in
        subst (λ (o : Outcome CodecError AudioChunk × Resampler R). IsRefed input e r o.1) (sym now)
          (resample-IsRefed r.inner input r e refl
            (ap (λ (o : Outcome CodecError AudioChunk × Resampler R). o.0) (sym now) ∙ h))
    | inr other ↦ absurd (
        wrong_rate-rubato r.from_rate input.sample_rate e (
          err-injective (
            ap (λ (o : Outcome CodecError AudioChunk × Resampler R). o.0) (sym (if_false _ _ other))
            ∙ h)))
  ]
