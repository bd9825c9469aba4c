-- ===== src/Core/StreamProtector/Lossless.antt =====
-- A stream in a mode that does not enforce.
use haechi.Prelude.{
  ℕ, String, zero, suc, ◌≡◌, refl, sym, ap, ◌∙◌, false, Option, none, some, List, [], ◌∷◌, ◌++◌,
  take, drop, take-append-drop, append_assoc, append-nil, Text,
}
use haechi.Stream.{concat}
use haechi.Core.{Detection}
use haechi.Core.Transform.{Item, Provider}
use haechi.Core.Events.{Context}
use haechi.Core.Protect.{Config}
use haechi.Core.StreamProtector.{
  StreamState, commit_length, detect_text, decided, is_enforcing, transform_items,
  transform_segment, push_committed, push, flush_text, flush,
}
use haechi.Core.StreamProtector.Commits.{push_committed-Leaves}

abbrev pub joined : Option Text → Option Text → Option Text
joined none t = none
joined (some s) none = none
joined (some s) (some t) = some (s ++ t)

module _ (provider : Provider) (config : Config)
    (engine : Option (Detection → Context → String → String)) (context : Context)
    (max_match : ℕ) where
  -- All that a stream of deltas emits, with the tail at the end; none where it is blocked.
  unfoldable pub emitted : List Text → StreamState provider.State → Option Text
  unfolding push flush
  emitted [] st = (flush provider config engine context max_match st).0
  emitted (t ∷ ts) st =
      let out = push provider config engine context max_match t st in
      joined out.0 (emitted ts out.1)

  module _ (unenforced : is_enforcing provider config engine context max_match ≡ false) where
    transform_segment-same :
        (text : Text) (st : StreamState provider.State)
        → (transform_segment provider config engine context max_match text st).0 ≡ some text
    unfolding transform_segment transform_items
    transform_segment-same text st = on_items (
        decided provider config engine context max_match
          (detect_text provider config engine context max_match text))
      where
        on_items :
            (items : List Item)
            → (transform_items provider config engine context max_match text items st).0 ≡ some text
        on_items [] = refl
        on_items (i ∷ is) = rw unenforced refl

    push_committed-same :
        (n : ℕ) (pending : Text) (st : StreamState provider.State)
        → (push_committed provider config engine context max_match n pending st).0
          ≡ some (take n pending)
    unfolding push_committed
    push_committed-same zero pending st = refl
    push_committed-same (suc n) pending st =
        transform_segment-same (take (suc n) pending) (record st { pending = drop (suc n) pending })

    flush_text-same :
        (text : Text) (st : StreamState provider.State)
        → (flush_text provider config engine context max_match text st).0 ≡ some text
    unfolding flush_text
    flush_text-same [] st = refl
    flush_text-same (c ∷ s) st = transform_segment-same (c ∷ s) (record st { pending = [] })

    -- In a mode that does not enforce the buffer loses nothing and blocks nothing: what a stream of deltas
    -- emits, with its tail at the end, is what was held before and the deltas' texts, in order, wherever the
    -- detections make the buffer cut.
    pub emitted-concat :
        (texts : List Text) (st : StreamState provider.State)
        → emitted texts st ≡ some (st.pending ++ concat texts)
    unfolding emitted flush push
    emitted-concat [] st = flush_text-same st.pending st ∙ ap some (sym (append-nil st.pending))
    emitted-concat (t ∷ ts) st =
        let buffer = st.pending ++ t in
        let n =
          commit_length max_match buffer
            (detect_text provider config engine context max_match buffer) in
        let out = push_committed provider config engine context max_match n buffer st in
        ap (λ o. joined o (emitted ts out.1)) (push_committed-same n buffer st)
        ∙ ap (joined (some (take n buffer))) (
            emitted-concat ts out.1
            ∙ ap (λ held. some (held ++ concat ts))
                (push_committed-Leaves provider config engine context max_match n buffer st))
        ∙ ap some (
            sym (append_assoc (take n buffer) (drop n buffer) (concat ts))
            ∙ ap (λ s. s ++ concat ts) (take-append-drop n buffer)
            ∙ append_assoc st.pending t (concat ts))
