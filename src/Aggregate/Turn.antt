-- ===== src/Aggregate/Turn.antt =====
-- flowcat-core/src/agent/text_filter.rs: what is spoken of one response.
use flowcat.Base.{
  ◌≡◌, refl, sym, ap, ap₂, subst, ◌∙◌, List, [], ◌∷◌, ◌++◌, Option, none, some, All, some-injective,
  some≢none,
}
use mathlib.Core.List.{append_assoc, append-nil}
use flowcat.Base.Text.{Text}
use flowcat.Base.Values.{filter_map}
use flowcat.Frame.{Frame, Direction, text, llm_text, llm_response_end}
use flowcat.Runtime.{Envelope}
use flowcat.Runtime.Sends.{pass, made, made-append, run}
use flowcat.Aggregate.{TextAggregator, emitted}
use flowcat.Aggregate.Letters.{letters, letters-append, concat, concat-append, IsLossless}
use flowcat.Aggregate.Processor.{push_sentences, push_tail, on_text, on_frame, process_frame, texts}

-- The text that a frame brings to the aggregator.
abbrev pub text_of : Frame → Option Text
text_of (llm_text t) = some t
text_of (text t) = some t
text_of _ = none

abbrev pub IsText : Envelope → Type 0
IsText env = (t : Text) × (text_of env.frame ≡ some t)

-- The letters of the frames made.
abbrev pub spoken : List Frame → Text
spoken frames = letters (concat (texts frames))

texts-append : (xs ys : List Frame) → texts (xs ++ ys) ≡ texts xs ++ texts ys
texts-append [] ys = refl
texts-append (text t ∷ xs) ys = ap (λ ts. t ∷ ts) (texts-append xs ys)
texts-append (_ ∷ xs) ys = texts-append xs ys

spoken-append : (xs ys : List Frame) → spoken (xs ++ ys) ≡ spoken xs ++ spoken ys
spoken-append xs ys =
    ap (λ ts. letters (concat ts)) (texts-append xs ys)
    ∙ ap letters (concat-append (texts xs) (texts ys))
    ∙ letters-append (concat (texts xs)) (concat (texts ys))

spoken-push_sentences :
    (direction : Direction) (ss : List Text)
    → spoken (made (push_sentences direction ss)) ≡ letters (concat ss)
unfolding push_sentences
spoken-push_sentences direction [] = refl
spoken-push_sentences direction ([] ∷ ss) = spoken-push_sentences direction ss
spoken-push_sentences direction ((c ∷ s) ∷ ss) =
    letters-append (c ∷ s) (concat (texts (made (push_sentences direction ss))))
    ∙ ap (λ t. letters (c ∷ s) ++ t) (spoken-push_sentences direction ss)
    ∙ sym (letters-append (c ∷ s) (concat ss))

spoken-push_tail : (o : Option Text) → spoken (made (push_tail o)) ≡ letters (concat (emitted o))
unfolding push_tail
spoken-push_tail none = refl
spoken-push_tail (some []) = refl
spoken-push_tail (some (c ∷ s)) = refl

module _ {A : Type 0} (g : TextAggregator A) where
  on_frame-text :
      (f : Frame) (env : Envelope) (a : A) (t : Text)
      → text_of f ≡ some t
      → on_frame g f env a ≡ on_text g t env a
  on_frame-text (llm_text u) env a t h = ap (λ x. on_text g x env a) (some-injective h)
  on_frame-text (text u) env a t h = ap (λ x. on_text g x env a) (some-injective h)
  on_frame-text _ env a t h = absurd (some≢none (sym h))

  module _ (lossless : IsLossless g) (last : Envelope) (ends : last.frame ≡ llm_response_end) where
    end-spoken : (a : A) → spoken (made (process_frame g last a).0) ≡ letters (lossless.held a)
    unfolding process_frame
    end-spoken a =
        subst (λ f. spoken (made (on_frame g f last a).0) ≡ letters (lossless.held a)) (sym ends)
          (ap spoken (made-append (push_tail (g.flush a).0) (pass last ∷ []))
            ∙ ap spoken (append-nil (made (push_tail (g.flush a).0)))
            ∙ spoken-push_tail (g.flush a).0
            ∙ lossless.flushes a)

    -- Over the frames of text of a response and its end, an aggregator that is lossless has spoken what it held and what the
    -- frames brought, in order, all but spaces.
    pub turn-spoken :
        (envs : List Envelope) (a : A)
        → All IsText envs
        → spoken (made (run (process_frame g) (envs ++ last ∷ []) a).0)
          ≡ letters (lossless.held a)
            ++ letters (concat (filter_map (λ env. text_of env.frame) envs))
    unfolding process_frame
    turn-spoken [] a all =
        ap (λ sends. spoken (made sends)) (append-nil (process_frame g last a).0)
        ∙ end-spoken a
        ∙ sym (append-nil (letters (lossless.held a)))
    turn-spoken (env ∷ envs) a all =
        let t = all.0.0 in
        let now = on_text g t env a in
        let brought = concat (filter_map (λ x. text_of x.frame) envs) in
        let rest = run (process_frame g) (envs ++ last ∷ []) now.1 in
        subst
          (λ r.
            spoken (made (r.0 ++ (run (process_frame g) (envs ++ last ∷ []) r.1).0))
            ≡ letters (lossless.held a)
              ++ letters (concat (filter_map (λ x. text_of x.frame) (env ∷ envs))))
          (sym (on_frame-text env.frame env a t all.0.1))
          (ap spoken (made-append now.0 rest.0)
            ∙ spoken-append (made now.0) (made rest.0)
            ∙ ap₂ (λ x y. x ++ y) (spoken-push_sentences env.direction (g.aggregate t a).0)
                (turn-spoken envs now.1 all.1)
            ∙ sym (
                append_assoc (letters (concat (g.aggregate t a).0)) (letters (lossless.held now.1))
                  (letters brought))
            ∙ ap (λ x. x ++ letters brought) (lossless.aggregates t a)
            ∙ append_assoc (letters (lossless.held a)) (letters t) (letters brought)
            ∙ ap (λ x. letters (lossless.held a) ++ x)
                (sym (letters-append t brought)
                  ∙ ap
                      (λ o. letters (
                        concat (elim o [
                          | none ↦ filter_map (λ x. text_of x.frame) envs
                          | some b ↦ b ∷ filter_map (λ x. text_of x.frame) envs
                        ])))
                      (sym all.0.1)))
