-- ===== src/Stream/Inspect/Order.antt =====
-- The order of what `inspectResponseStream` does: frame by frame, to the first that is blocked.
use haechi.Prelude.{
  ◌≡◌, refl, sym, ap, ◌∙◌, inl, inr, Bool, true, false, Bool-cases, Option, List, [], ◌∷◌, ◌++◌,
  if◌then◌else◌, Text, Json,
}
use haechi.Stream.{concat}
use haechi.Stream.Splitter.{push, finish, push_all, frames_of}
use haechi.Stream.Splitter.Chunks.{frames_of-concat}
use haechi.Stream.Inspect.{
  Protector, Streaming, Inspection, flush_held_tail, handle_frame, handle_frames, inspect_chunks,
  inspect_response_stream,
}

module _ {State : Type 0} (json_parse : Text → Option Json) (p : Protector State)
    (streaming : Streaming) where
  handle_frames_nil : (st : Inspection State) → st ≡ handle_frames json_parse p streaming [] st
  unfolding handle_frames
  handle_frames_nil st = refl

  -- The frames of two lists, one after the other.
  handle_frames-append :
      (xs ys : List Text) (st : Inspection State)
      → st.blocked ≡ false
      → handle_frames json_parse p streaming (xs ++ ys) st ≡ (
          if (handle_frames json_parse p streaming xs st).blocked
          then handle_frames json_parse p streaming xs st
          else handle_frames json_parse p streaming ys (handle_frames json_parse p streaming xs st))
  unfolding handle_frames
  handle_frames-append [] ys st n = rw n refl
  handle_frames-append (x ∷ xs) ys st n =
      elim (Bool-cases (handle_frame json_parse p streaming x st).blocked) [
        | inl e ↦ rw (e, e) refl
        | inr e ↦ rw e (handle_frames-append xs ys (handle_frame json_parse p streaming x st) e)
      ]

  handle_frames-append_stop :
      (xs ys : List Text) (st : Inspection State)
      → st.blocked ≡ false
      → (handle_frames json_parse p streaming xs st).blocked ≡ true
      → handle_frames json_parse p streaming (xs ++ ys) st
        ≡ handle_frames json_parse p streaming xs st
  handle_frames-append_stop xs ys st n e = handle_frames-append xs ys st n ∙ (rw e refl)

  handle_frames-append_go :
      (xs ys : List Text) (st : Inspection State)
      → st.blocked ≡ false
      → (handle_frames json_parse p streaming xs st).blocked ≡ false
      → handle_frames json_parse p streaming (xs ++ ys) st
        ≡ handle_frames json_parse p streaming ys (handle_frames json_parse p streaming xs st)
  handle_frames-append_go xs ys st n e = handle_frames-append xs ys st n ∙ (rw e refl)

  module _ (t : Text) (ts : List Text) (buffer : Text) (st : Inspection State) where
    abbrev first : Inspection State
    unfolding handle_frames push
    first = handle_frames json_parse p streaming (push streaming.format t buffer).0 st

    inspect_chunks_stop :
        first.blocked ≡ true
        → inspect_chunks json_parse p streaming (t ∷ ts) buffer st
          ≡ (first, (push streaming.format t buffer).1)
    unfolding inspect_chunks first
    inspect_chunks_stop e = rw e refl

    inspect_chunks_go :
        first.blocked ≡ false
        → inspect_chunks json_parse p streaming (t ∷ ts) buffer st
          ≡ inspect_chunks json_parse p streaming ts (push streaming.format t buffer).1 first
    unfolding inspect_chunks first
    inspect_chunks_go e = rw e refl

  -- The state and the buffer after the chunks, by the frames that the splitter makes of them.
  abbrev Follows : List Text × Text → Inspection State → Inspection State × Text → Type 0
  unfolding handle_frames
  Follows frames st out =
      (out.0 ≡ handle_frames json_parse p streaming frames.0 st)
      × (out.0.blocked ≡ false → out.1 ≡ frames.1)

  inspect_chunks-Follows :
      (texts : List Text) (buffer : Text) (st : Inspection State)
      → st.blocked ≡ false
      → Follows
          (push_all streaming.format texts buffer)
          st
          (inspect_chunks json_parse p streaming texts buffer st)
  unfolding inspect_chunks push_all Follows first
  inspect_chunks-Follows [] buffer st n = (handle_frames_nil st, λ _. refl)
  inspect_chunks-Follows (t ∷ ts) buffer st n =
      let here = push streaming.format t buffer in
      let rest = push_all streaming.format ts here.1 in
      let after = handle_frames json_parse p streaming here.0 st in
      elim (Bool-cases after.blocked) [
        | inl e ↦
            let stop = inspect_chunks_stop t ts buffer st e in
            (
              ap (λ x. x.0) stop ∙ sym (handle_frames-append_stop here.0 rest.0 st n e),
              λ b. absurd (clash (sym e ∙ sym (ap (λ x. x.0.blocked) stop) ∙ b)),
            )
        | inr e ↦
            let go = inspect_chunks_go t ts buffer st e in
            let later = inspect_chunks-Follows ts here.1 after e in
            (
              ap (λ x. x.0) go ∙ later.0 ∙ sym (handle_frames-append_go here.0 rest.0 st n e),
              λ b. ap (λ x. x.1) go ∙ later.1 (sym (ap (λ x. x.0.blocked) go) ∙ b),
            )
      ]
    where
      clash : ◌≡◌ {A = Bool} true false → ⊥
      clash e = cc

  -- The end of the stream.
  abbrev close : Inspection State → Inspection State
  unfolding flush_held_tail
  close st = if st.blocked then st else flush_held_tail json_parse p streaming st

  inspect-frames :
      (texts : List Text) (last : Text) (st : Inspection State)
      → st.blocked ≡ false
      → inspect_response_stream json_parse p streaming texts last st
        ≡ close (handle_frames json_parse p streaming (frames_of streaming.format texts last) st)
  unfolding inspect_response_stream frames_of close
  inspect-frames texts last st n =
      let pushed = push_all streaming.format texts [] in
      let looped = inspect_chunks json_parse p streaming texts [] st in
      let follows = inspect_chunks-Follows texts [] st n in
      elim (Bool-cases looped.0.blocked) [
        | inl e ↦
            let b = sym (ap (λ x. x.blocked) follows.0) ∙ e in
            rw e (
              ap close (
                follows.0 ∙ sym (handle_frames-append_stop pushed.0 (finish last pushed.1) st n b)))
        | inr e ↦
            let b = sym (ap (λ x. x.blocked) follows.0) ∙ e in
            rw e (
              ap close (
                sym (
                  handle_frames-append_go pushed.0 (finish last pushed.1) st n b
                  ∙ ap (handle_frames json_parse p streaming (finish last pushed.1)) (sym follows.0)
                  ∙ ap (λ u. handle_frames json_parse p streaming (finish last u) looped.0)
                      (sym (follows.1 e)))))
      ]

  -- What a response becomes does not depend on how it was cut into chunks: two ways to cut the same text
  -- leave the same writes, the same state of the protector and the same answer.
  pub inspect_response_stream-concat :
      (texts others : List Text) (last : Text) (st : Inspection State)
      → st.blocked ≡ false
      → concat texts ≡ concat others
      → inspect_response_stream json_parse p streaming texts last st
        ≡ inspect_response_stream json_parse p streaming others last st
  inspect_response_stream-concat texts others last st n same =
      inspect-frames texts last st n
      ∙ ap (λ frames. close (handle_frames json_parse p streaming frames st))
          (frames_of-concat streaming.format texts others last same)
      ∙ sym (inspect-frames others last st n)

  pub inspect-stops :
      (texts : List Text) (last : Text) (before after : List Text) (st : Inspection State)
      → st.blocked ≡ false
      → frames_of streaming.format texts last ≡ before ++ after
      → (handle_frames json_parse p streaming before st).blocked ≡ true
      → inspect_response_stream json_parse p streaming texts last st
        ≡ handle_frames json_parse p streaming before st
  unfolding close
  inspect-stops texts last before after st n f b =
      inspect-frames texts last st n
      ∙ ap (λ frames. close (handle_frames json_parse p streaming frames st)) f
      ∙ ap close (handle_frames-append_stop before after st n b)
      ∙ (rw b refl)

  pub handle_frames_last :
      (before : List Text) (raw : Text) (st : Inspection State)
      → st.blocked ≡ false
      → (handle_frames json_parse p streaming before st).blocked ≡ false
      → handle_frames json_parse p streaming (before ++ raw ∷ []) st
        ≡ handle_frame json_parse p streaming raw (handle_frames json_parse p streaming before st)
  unfolding handle_frames
  handle_frames_last before raw st n b =
      handle_frames-append_go before (raw ∷ []) st n b
      ∙ one (handle_frames json_parse p streaming before st)
    where
      one :
          (w : Inspection State)
          → handle_frames json_parse p streaming (raw ∷ []) w
            ≡ handle_frame json_parse p streaming raw w
      one w = elim (Bool-cases (handle_frame json_parse p streaming raw w).blocked) [
        | inl e ↦ rw e refl
        | inr e ↦ rw e refl
      ]
