-- ===== src/FcallFilter/Dedup.antt =====
-- The filter passes the first call of each key among the valid ones.
use mathlib.Core.List.{append-nil, append_assoc}
use flowcat.Base.{
  ◌≡◌, refl, sym, ap, ap₂, subst, ◌∙◌, inl, inr, Bool, true, false, ◌&&◌, List, [], ◌∷◌, ◌++◌,
  if◌then◌else◌, if_true, if_false, Bool-cases, arith, keep_if,
}
use flowcat.Base.Text.{Text, Json}
use flowcat.Frame.{Frame, FunctionCall, function_calls_started}
use flowcat.Runtime.{Envelope}
use flowcat.FcallFilter.{
  FunctionCallFilter, member, is_allowed, keys_of, has_keys, call_key, insert_key, permits,
  filter_calls, process_frame, on_frame, pass_kept,
}

-- On the allow list, and with the arguments that are required.
unfoldable pub is_valid : FunctionCallFilter → FunctionCall → Bool
is_valid f call =
    is_allowed f.allow call.function_name
    && has_keys call.arguments (keys_of call.function_name f.required)

-- The calls in a frame, and in the frames of a session.
abbrev pub calls_of : Frame → List FunctionCall
calls_of (function_calls_started calls) = calls
calls_of _ = []

abbrev pub calls_in : List Envelope → List FunctionCall
calls_in [] = []
calls_in (env ∷ envs) = calls_of env.frame ++ calls_in envs

pass_kept-calls : (env : Envelope) (kept : List FunctionCall) → calls_in (pass_kept env kept) ≡ kept
unfolding pass_kept
pass_kept-calls env [] = refl
pass_kept-calls env (call ∷ kept) = append-nil (call ∷ kept)

calls_in-append : (xs ys : List Envelope) → calls_in (xs ++ ys) ≡ calls_in xs ++ calls_in ys
calls_in-append [] ys = refl
calls_in-append (x ∷ xs) ys =
    ap (λ cs. calls_of x.frame ++ cs) (calls_in-append xs ys)
    ∙ sym (append_assoc (calls_of x.frame) (calls_in xs) (calls_in ys))

keep_if-append :
    {A : Type 0} (p : A → Bool) (xs ys : List A)
    → keep_if p (xs ++ ys) ≡ keep_if p xs ++ keep_if p ys
keep_if-append p [] ys = refl
keep_if-append p (x ∷ xs) ys = ground (arith, keep_if-append p xs ys)

same-valid :
    (f g : FunctionCallFilter) (calls : List FunctionCall)
    → f.allow ≡ g.allow
    → f.required ≡ g.required
    → keep_if (is_valid f) calls ≡ keep_if (is_valid g) calls
unfolding is_valid
same-valid f g calls a r =
    ap₂
      (λ allow required.
        keep_if
          (λ call.
            is_allowed allow call.function_name
            && has_keys call.arguments (keys_of call.function_name required))
          calls)
      a r

module _ (print : Json → Text) where
  -- The calls whose key is not among those seen, nor that of an earlier call.
  unfoldable pub first_of_key : List Text → List FunctionCall → List FunctionCall
  first_of_key seen [] = []
  first_of_key seen (call ∷ calls) =
      let key = call_key print call in
      let again = first_of_key seen calls in
      let rest = first_of_key (key ∷ seen) calls in if member key seen then again else call ∷ rest

  permits-invalid :
      (call : FunctionCall) (f : FunctionCallFilter)
      → is_valid f call ≡ false
      → permits print call f ≡ (false, f)
  unfolding permits is_valid
  permits-invalid call f h = ground arith

  -- A valid call is passed unless its key was seen, and then its key has been seen.
  permits-valid :
      (call : FunctionCall) (f : FunctionCallFilter)
      → f.dedup ≡ true
      → is_valid f call ≡ true
      → permits print call f ≡ (
          if member (call_key print call) f.seen
          then (false, f)
          else (true, record f { seen = call_key print call ∷ f.seen }))
  unfolding permits is_valid insert_key
  permits-valid call f h k = ground arith

  -- What the filter does with a verdict.
  abbrev decided :
      FunctionCall
      → List FunctionCall
      → Bool × FunctionCallFilter
      → List FunctionCall × FunctionCallFilter
  decided call calls verdict =
      let rest = filter_calls print calls verdict.1 in
      (if verdict.0 then call ∷ rest.0 else rest.0, rest.1)

  -- The result is what the calls add to those seen, and the settings are left alone.
  abbrev Filtered :
      FunctionCallFilter → List FunctionCall → List FunctionCall × FunctionCallFilter → Type 0
  Filtered f calls r =
      ((more : List FunctionCall)
        → first_of_key f.seen (calls ++ more) ≡ r.0 ++ first_of_key r.1.seen more)
      × ((r.1.allow ≡ f.allow) × ((r.1.required ≡ f.required) × (r.1.dedup ≡ f.dedup)))

  seen-Filtered :
      (call : FunctionCall) (f : FunctionCallFilter) (calls : List FunctionCall)
      (r : List FunctionCall × FunctionCallFilter)
      → member (call_key print call) f.seen ≡ true
      → Filtered f calls r
      → Filtered f (call ∷ calls) r
  unfolding first_of_key
  seen-Filtered call f calls r h filtered = ((λ more. if_true _ _ h ∙ filtered.0 more), filtered.1)

  fresh-Filtered :
      (call : FunctionCall) (f : FunctionCallFilter) (calls : List FunctionCall)
      (r : List FunctionCall × FunctionCallFilter)
      → member (call_key print call) f.seen ≡ false
      → Filtered (record f { seen = call_key print call ∷ f.seen }) calls r
      → Filtered f (call ∷ calls) (call ∷ r.0, r.1)
  unfolding first_of_key
  fresh-Filtered call f calls r h filtered =
      ((λ more. if_false _ _ h ∙ ap (λ cs. call ∷ cs) (filtered.0 more)), filtered.1)

  filter_calls-Filtered :
      (calls : List FunctionCall) (f : FunctionCallFilter)
      → f.dedup ≡ true
      → Filtered f (keep_if (is_valid f) calls) (filter_calls print calls f)
  unfolding filter_calls is_valid
  filter_calls-Filtered [] f h = ((λ more. refl), (refl, (refl, refl)))
  filter_calls-Filtered (call ∷ calls) f h =
      let passed : Bool × FunctionCallFilter → Type 0 =
        λ v. Filtered f (keep_if (is_valid f) (call ∷ calls)) (decided call calls v) in
      elim (Bool-cases (is_valid f call)) [
        | inl valid ↦
            let verdict = permits-valid call f h valid in
            let kept =
              sym
                (if_true (call ∷ keep_if (is_valid f) calls) (keep_if (is_valid f) calls) valid) in
            elim (Bool-cases (member (call_key print call) f.seen)) [
              | inl seen ↦ subst passed (sym (verdict ∙ if_true _ _ seen)) (
                  subst (λ cs. Filtered f cs (filter_calls print calls f)) kept
                    (seen-Filtered call f (keep_if (is_valid f) calls) (filter_calls print calls f)
                      seen (filter_calls-Filtered calls f h)))
              | inr fresh ↦
                  let g = record f { seen = call_key print call ∷ f.seen } in
                  let rest = filter_calls print calls g in
                  subst passed (sym (verdict ∙ if_false _ _ fresh)) (
                    subst (λ cs. Filtered f cs (call ∷ rest.0, rest.1)) kept
                      (fresh-Filtered call f (keep_if (is_valid f) calls) rest fresh
                        (filter_calls-Filtered calls g h)))
            ]
        | inr invalid ↦ subst passed (sym (permits-invalid call f invalid)) (
            subst (λ cs. Filtered f cs (filter_calls print calls f))
              (sym
                (if_false (call ∷ keep_if (is_valid f) calls) (keep_if (is_valid f) calls) invalid))
              (filter_calls-Filtered calls f h))
      ]

  abbrev pub session : List Envelope → FunctionCallFilter → List Envelope
  session [] f = []
  session (env ∷ envs) f = let r = process_frame print env f in r.0 ++ session envs r.1

  on_frame-calls :
      (frame : Frame) (env : Envelope) (f : FunctionCallFilter)
      → env.frame ≡ frame
      → (calls_in (on_frame print frame env f).0 ≡ (filter_calls print (calls_of frame) f).0)
        × ((on_frame print frame env f).1 ≡ (filter_calls print (calls_of frame) f).1)
  unfolding on_frame filter_calls
  on_frame-calls (function_calls_started calls) env f e =
      (pass_kept-calls env (filter_calls print calls f).0, refl)
  on_frame-calls _ env f e = (ap (λ x. calls_of x ++ []) e, refl)

  -- With de-duplication on, the calls that a session passes are, in order, the valid ones among
  -- those it was given, without any whose key was seen at its start or is that of an earlier valid
  -- call.
  pub session-first_of_key :
      (envs : List Envelope) (f : FunctionCallFilter)
      → f.dedup ≡ true
      → calls_in (session envs f) ≡ first_of_key f.seen (keep_if (is_valid f) (calls_in envs))
  unfolding process_frame first_of_key
  session-first_of_key [] f h = refl
  session-first_of_key (env ∷ envs) f h =
      let cs = calls_of env.frame in
      let r = process_frame print env f in
      let g = (filter_calls print cs f).1 in
      let filtered = filter_calls-Filtered cs f h in
      let framed = on_frame-calls env.frame env f refl in
      let rest : calls_in (session envs g)
          ≡ first_of_key g.seen (keep_if (is_valid f) (calls_in envs)) =
        session-first_of_key envs g (filtered.1.1.1 ∙ h)
        ∙ ap (first_of_key g.seen) (same-valid g f (calls_in envs) filtered.1.0 filtered.1.1.0) in
      calls_in-append r.0 (session envs r.1)
      ∙ ap₂ (λ xs k. xs ++ calls_in (session envs k)) framed.0 framed.1
      ∙ ap (λ xs. (filter_calls print cs f).0 ++ xs) rest
      ∙ sym (filtered.0 (keep_if (is_valid f) (calls_in envs)))
      ∙ ap (first_of_key f.seen) (sym (keep_if-append (is_valid f) cs (calls_in envs)))

  -- No key twice, and none that was seen.
  abbrev pub IsFresh : List Text → List FunctionCall → Type 0
  IsFresh seen [] = Unit
  IsFresh seen (call ∷ calls) =
      (member (call_key print call) seen ≡ false) × IsFresh (call_key print call ∷ seen) calls

  first_of_key-IsFresh :
      (calls : List FunctionCall) (seen : List Text) → IsFresh seen (first_of_key seen calls)
  unfolding first_of_key
  first_of_key-IsFresh [] seen = tt
  first_of_key-IsFresh (call ∷ calls) seen = elim (Bool-cases (member (call_key print call) seen)) [
    | inl again ↦ subst (IsFresh seen) (sym (if_true _ _ again)) (first_of_key-IsFresh calls seen)
    | inr fresh ↦
        subst (IsFresh seen) (sym (if_false _ _ fresh))
          (fresh, first_of_key-IsFresh calls (call_key print call ∷ seen))
  ]

  -- With de-duplication on, no two of the calls that a session passes have the same key, and none
  -- has a key that was seen at its start.
  pub session-IsFresh :
      (envs : List Envelope) (f : FunctionCallFilter)
      → f.dedup ≡ true
      → IsFresh f.seen (calls_in (session envs f))
  session-IsFresh envs f h =
      subst (IsFresh f.seen) (sym (session-first_of_key envs f h))
        (first_of_key-IsFresh (keep_if (is_valid f) (calls_in envs)) f.seen)
