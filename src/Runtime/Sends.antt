-- ===== src/Runtime/Sends.antt =====
-- flowcat-core/src/processor/mod.rs: what a processor of its own hands to its `Link`, an envelope that it
-- passes on or a frame that it makes, whose envelope gets a new id.
use flowcat.Base.{◌≡◌, refl, ap, ap₂, ◌∙◌, List, [], ◌∷◌, ◌++◌}
use flowcat.Frame.{Direction, downstream, Frame}
use flowcat.Runtime.{Envelope}

pub data Send : Type 0 where
  pass : Envelope → Send
  make : Frame → Direction → Send

-- `Link::push_down`
abbrev pub push_down : Frame → Send
push_down frame = make frame downstream

-- The frames made, in order.
abbrev pub made : List Send → List Frame
made [] = []
made (pass env ∷ sends) = made sends
made (make frame direction ∷ sends) = frame ∷ made sends

-- The envelopes passed on, in order.
abbrev pub passed : List Send → List Envelope
passed [] = []
passed (pass env ∷ sends) = env ∷ passed sends
passed (make frame direction ∷ sends) = passed sends

pub made-append : (xs ys : List Send) → made (xs ++ ys) ≡ made xs ++ made ys
made-append [] ys = refl
made-append (pass env ∷ xs) ys = made-append xs ys
made-append (make frame direction ∷ xs) ys = ap (λ fs. frame ∷ fs) (made-append xs ys)

pub passed-append : (xs ys : List Send) → passed (xs ++ ys) ≡ passed xs ++ passed ys
passed-append [] ys = refl
passed-append (pass env ∷ xs) ys = ap (λ envs. env ∷ envs) (passed-append xs ys)
passed-append (make frame direction ∷ xs) ys = passed-append xs ys

-- A run of a processor over the frames that arrive.
module _ {S : Type 0} (process_frame : Envelope → S → List Send × S) where
  abbrev pub run : List Envelope → S → List Send × S
  run [] s = ([], s)
  run (env ∷ envs) s =
      let now = process_frame env s in let rest = run envs now.1 in (now.0 ++ rest.0, rest.1)

  -- Where each frame that arrives is passed on once, a run passes on what arrived, in order.
  pub passed-run :
      ((env : Envelope) (s : S) → passed (process_frame env s).0 ≡ env ∷ [])
      → (envs : List Envelope) (s : S) → passed (run envs s).0 ≡ envs
  passed-run one [] s = refl
  passed-run one (env ∷ envs) s =
      let now = process_frame env s in
      passed-append now.0 (run envs now.1).0
      ∙ ap₂ (λ xs ys. xs ++ ys) (one env s) (passed-run one envs now.1)
