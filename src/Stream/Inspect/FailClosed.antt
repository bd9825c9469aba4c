-- ===== src/Stream/Inspect/FailClosed.antt =====
-- A frame that is blocked ends the response.
use haechi.Prelude.{
  ◌≡◌, ◌⊎◌, refl, sym, ap, ◌∙◌, inl, inr, Bool, true, false, Bool-cases, Option, none, some, List,
  [], ◌∷◌, ◌++◌, Text, Json,
}
use haechi.Stream.{stringify}
use haechi.Stream.Splitter.{frames_of}
use haechi.Stream.Frames.{Parsed, parsed, control, content, parse_frame}
use haechi.Stream.Paths.{Part, is_object}
use haechi.Stream.Inspect.{
  Protector, Streaming, Inspection, is_flush_frame, delta_text, tail_frame, write_tail, after_flush,
  flush_held_tail, after_text, after_push, after_extras, without_delta, handle_object, flush_before,
  handle_parsed, handle_frame, handle_frames, inspect_response_stream,
}
use haechi.Stream.Inspect.Order.{inspect-stops, handle_frames_last}

module _ {State : Type 0} (json_parse : Text → Option Json) (p : Protector State)
    (streaming : Streaming) where
  clash : ◌≡◌ {A = Bool} false true → ⊥
  clash e = cc

  -- One step's writes: none, or the tail that the protector held back.
  abbrev pub WritesTail : Inspection State → Inspection State → Type 0
  WritesTail st out =
      (out.written ≡ st.written)
      ⊎ ((text : Text) × ((p.flush st.protector).0 ≡ some text)
          × (path : List Part) × (out.written
              ≡ st.written ++ tail_frame json_parse p streaming path text st.template ∷ []))

  after_flush-WritesTail :
      (st : Inspection State) (flushed : Option Text × State)
      → p.flush st.protector ≡ flushed
      → WritesTail st (after_flush json_parse p streaming flushed st)
  unfolding after_flush write_tail
  after_flush-WritesTail st (none, s) e = inl refl
  after_flush-WritesTail st (some text, s) e = on_path streaming.delta_path text (ap (λ x. x.0) e)
    where
      on_path :
          (path : Option (List Part)) (text : Text)
          → (p.flush st.protector).0 ≡ some text
          → WritesTail st
              (write_tail json_parse p streaming path text (record st { protector = s }))
      on_path none text f = inl refl
      on_path (some path) [] f = inl refl
      on_path (some path) (c ∷ t) f = inr (c ∷ t, f, path, refl)

  flush_before-WritesTail :
      (v : Json) (st : Inspection State) → WritesTail st (flush_before json_parse p streaming v st)
  unfolding flush_before flush_held_tail
  flush_before-WritesTail v st = elim (Bool-cases (is_flush_frame streaming.flush_on_type v)) [
    | inl e ↦ rw e (after_flush-WritesTail st (p.flush st.protector) refl)
    | inr e ↦ rw e (inl refl)
  ]

  after_text-blocked :
      (raw : Text) (answer : Option Text × State) (st : Inspection State)
      → st.blocked ≡ false
      → (after_text json_parse p streaming raw answer st).blocked ≡ true
      → (after_text json_parse p streaming raw answer st).written ≡ st.written
  unfolding after_text
  after_text-blocked raw (none, s) st n b = refl
  after_text-blocked raw (some text, s) st n b = absurd (clash (sym n ∙ b))

  after_push-blocked :
      (raw : Text) (v : Json) (answer : Option Text × State) (st : Inspection State)
      → st.blocked ≡ false
      → (after_push json_parse p streaming raw v answer st).blocked ≡ true
      → (after_push json_parse p streaming raw v answer st).written ≡ st.written
  unfolding after_push
  after_push-blocked raw v (none, s) st n b = refl
  after_push-blocked raw v (some text, s) st n b = absurd (clash (sym n ∙ b))

  after_extras-blocked :
      (raw : Text) (delta : Option Text) (answer : Option Json × State) (st : Inspection State)
      → st.blocked ≡ false
      → (after_extras json_parse p streaming raw delta answer st).blocked ≡ true
      → (after_extras json_parse p streaming raw delta answer st).written ≡ st.written
  unfolding after_extras
  after_extras-blocked raw delta (none, s) st n b = refl
  after_extras-blocked raw none (some v, s) st n b = absurd (clash (sym n ∙ b))
  after_extras-blocked raw (some text) (some v, s) st n b =
      after_push-blocked raw v (p.push_text text s) st n b

  handle_parsed_object :
      (raw : Text) (v : Json) (st : Inspection State)
      → is_object v ≡ true
      → (flush_before json_parse p streaming v st).blocked ≡ false
      → handle_parsed json_parse p streaming raw (parsed v) st
        ≡ handle_object json_parse p streaming raw v (flush_before json_parse p streaming v st)
  unfolding handle_parsed
  handle_parsed_object raw v st o f = rw (o, f) refl

  handle_parsed_primitive :
      (raw : Text) (v : Json) (st : Inspection State)
      → is_object v ≡ false
      → handle_parsed json_parse p streaming raw (parsed v) st
        ≡ after_text json_parse p streaming raw (p.protect_text (stringify v) st.protector) st
  unfolding handle_parsed
  handle_parsed_primitive raw v st o = rw o refl

  handle_object-blocked :
      (raw : Text) (v : Json) (st : Inspection State)
      → st.blocked ≡ false
      → (handle_object json_parse p streaming raw v st).blocked ≡ true
      → (handle_object json_parse p streaming raw v st).written ≡ st.written
  unfolding handle_object
  handle_object-blocked raw v st n b =
      after_extras-blocked raw (delta_text streaming.delta_path v)
        (p.protect_frame_extras
          (without_delta json_parse p streaming (delta_text streaming.delta_path v) v) st.protector)
        st n b

  WritesTail-written :
      (st w out : Inspection State) → out.written ≡ w.written → WritesTail st w → WritesTail st out
  WritesTail-written st w out e (inl h) = inl (e ∙ h)
  WritesTail-written st w out e (inr (text, f, path, h)) = inr (text, f, path, e ∙ h)

  handle_parsed-blocked :
      (raw : Text) (frame : Parsed) (st : Inspection State)
      → st.blocked ≡ false
      → (handle_parsed json_parse p streaming raw frame st).blocked ≡ true
      → WritesTail st (handle_parsed json_parse p streaming raw frame st)
  unfolding handle_parsed handle_object
  handle_parsed-blocked raw control st n b = absurd (clash (sym n ∙ b))
  handle_parsed-blocked raw (content text) st n b =
      inl (after_text-blocked raw (p.protect_text text st.protector) st n b)
  handle_parsed-blocked raw (parsed v) st n b = elim (Bool-cases (is_object v)) [
    | inl o ↦ elim (Bool-cases (flush_before json_parse p streaming v st).blocked) [
      | inl f ↦ rw (o, f) (flush_before-WritesTail v st)
      | inr f ↦
          let w = flush_before json_parse p streaming v st in
          let e = handle_parsed_object raw v st o f in
          WritesTail-written st w (handle_parsed json_parse p streaming raw (parsed v) st)
            (ap (λ x. x.written) e
              ∙ handle_object-blocked raw v w f (sym (ap (λ x. x.blocked) e) ∙ b))
            (flush_before-WritesTail v st)
    ]
    | inr o ↦
        let e = handle_parsed_primitive raw v st o in
        let answer = p.protect_text (stringify v) st.protector in
        inl (
          ap (λ x. x.written) e
          ∙ after_text-blocked raw answer st n (sym (ap (λ x. x.blocked) e) ∙ b))
  ]

  -- A response fails closed. When a frame is blocked, the frames after it leave no trace: the response ends
  -- as blocked in the state of that frame, and what was written is what was written before it, with at most
  -- the tail that the protector released for a delta that ended there. Nothing of the frame is written.
  pub inspect-blocked :
      (texts : List Text) (last : Text) (before after : List Text) (raw : Text)
      (st : Inspection State)
      → st.blocked ≡ false
      → frames_of streaming.format texts last ≡ (before ++ raw ∷ []) ++ after
      → (handle_frames json_parse p streaming before st).blocked ≡ false
      → (handle_frame json_parse p streaming raw
          (handle_frames json_parse p streaming before st)).blocked
        ≡ true
      → (inspect_response_stream json_parse p streaming texts last st
          ≡ handle_frame json_parse p streaming raw
              (handle_frames json_parse p streaming before st))
        × WritesTail
            (handle_frames json_parse p streaming before st)
            (inspect_response_stream json_parse p streaming texts last st)
  unfolding handle_frame
  inspect-blocked texts last before after raw st n f unblocked b =
      let here = handle_frames json_parse p streaming before st in
      let one = handle_frames_last json_parse p streaming before raw st n unblocked in
      let whole =
        inspect-stops json_parse p streaming texts last (before ++ raw ∷ []) after st n f
          (ap (λ x. x.blocked) one ∙ b)
        ∙ one in
      (
        whole,
        WritesTail-written here (handle_frame json_parse p streaming raw here)
            (inspect_response_stream json_parse p streaming texts last st)
            (ap (λ x. x.written) whole)
            (handle_parsed-blocked raw (parse_frame json_parse streaming.format raw) here unblocked
              b),
      )
