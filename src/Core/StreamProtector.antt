-- ===== src/Core/StreamProtector.antt =====
-- `createStreamProtector`: the protector of a stream of text. Deltas go through a buffer that holds back what a
-- match may still reach. A throw, which ends the stream as well, is answered as blocked.
pub mod Commits
pub mod Lossless
use haechi.Prelude.{
  ℕ, zero, suc, ◌+◌, ◌-◌, String, Bool, true, false, not, ◌&&◌, Option, none, some, List, [], ◌∷◌,
  ◌++◌, ltb, min, ◌==◌, if◌then◌else◌, any, map, filter, length, take, drop, or_default, Dict, Text,
  Json, string,
}
use haechi.Stream.Inspect.{Protector}
use haechi.Core.{Detection}
use haechi.Core.Entries.{Entry, collect_string_entries}
use haechi.Core.Transform.{Item, Provider, World, transform_string}
use haechi.Core.Payload.{transform_payload}
use haechi.Core.Events.{Context, is_enforced, tally, type_of, action_of}
use haechi.Core.Protect.{Config, engine_of, decide_all, is_block, max_nesting_depth}

pub record StreamState (State : Type 0) : Type 0 where
  pub pending : Text
  pub by_type : Dict ℕ
  pub by_action : Dict ℕ
  pub detection_count : ℕ
  pub state : State

-- The least start of the detections, from a bound on.
abbrev pub least_start : ℕ → List Detection → ℕ
least_start bound [] = bound
least_start bound (d ∷ ds) = least_start (min bound d.start) ds

abbrev pub reaches_past : ℕ → Detection → Bool
reaches_past commit d = ltb commit d.end

-- The number of units that `push` commits: none of the last ones, and none from the first detection on that
-- reaches into these.
unfoldable pub commit_length : ℕ → Text → List Detection → ℕ
commit_length max_match pending ds =
    least_start (length pending - max_match) (filter (reaches_past (length pending - max_match)) ds)

module _ (provider : Provider) (config : Config)
    (engine : Option (Detection → Context → String → String)) (context : Context)
    (max_match : ℕ) where
  abbrev pub mode : String
  mode = or_default context.mode config.mode

  abbrev pub detect_in : Option (List Entry) → List Detection
  detect_in none = []
  detect_in (some entries) = config.detect entries context

  -- A text is one entry, at any limit of the nesting.
  unfoldable pub detect_text : Text → List Detection
  unfolding collect_string_entries
  detect_text text = detect_in (
      collect_string_entries provider.short_hash (max_nesting_depth config.max_depth) (string text)
        [])

  abbrev pub decided : List Detection → List Item
  decided ds = decide_all (engine_of engine config) context mode ds

  abbrev pub tallied : List Item → StreamState provider.State → StreamState provider.State
  unfolding tally
  tallied items st = record st {
    by_type = tally (map type_of items) st.by_type;
    by_action = tally (map action_of items) st.by_action;
    detection_count = st.detection_count + length items;
  }

  abbrev pub is_enforcing : Bool
  unfolding is_enforced
  is_enforcing = is_enforced mode

  abbrev pub text_answer :
      Option (Text × World provider)
      → StreamState provider.State
      → Option Text × StreamState provider.State
  text_answer none st = (none, st)
  text_answer (some r) st = (some r.0, record st { state = r.1.state })

  abbrev pub json_answer :
      Option (Json × World provider)
      → StreamState provider.State
      → Option Json × StreamState provider.State
  json_answer none st = (none, st)
  json_answer (some r) st = (some r.0, record st { state = r.1.state })

  abbrev pub world : StreamState provider.State → World provider
  world st = record { state = st.state; issued = [] }

  unfoldable pub transform_items :
      Text → List Item → StreamState provider.State → Option Text × StreamState provider.State
  unfolding tallied transform_string is_enforcing
  transform_items text [] st = (some text, st)
  transform_items text (i ∷ is) st =
      if is_enforcing && any is_block (i ∷ is)
      then (none, tallied (i ∷ is) st)
      else if not is_enforcing
      then (some text, tallied (i ∷ is) st)
      else text_answer (transform_string provider text (i ∷ is) (world st)) (tallied (i ∷ is) st)

  unfoldable pub transform_segment :
      Text → StreamState provider.State → Option Text × StreamState provider.State
  unfolding transform_items detect_text
  transform_segment text st = transform_items text (decided (detect_text text)) st

  unfoldable pub protect_text :
      Text → StreamState provider.State → Option Text × StreamState provider.State
  unfolding transform_segment
  protect_text [] st = (some [], st)
  protect_text (c ∷ s) st = transform_segment (c ∷ s) st

  abbrev pub extras_answer :
      Json → List Item → StreamState provider.State → Option Json × StreamState provider.State
  unfolding tallied transform_payload is_enforcing
  extras_answer v [] st = (some v, st)
  extras_answer v (i ∷ is) st =
      if is_enforcing && any is_block (i ∷ is)
      then (none, tallied (i ∷ is) st)
      else if not is_enforcing
      then (some v, tallied (i ∷ is) st)
      else json_answer (transform_payload provider true v (i ∷ is) (world st)) (tallied (i ∷ is) st)

  abbrev pub extras_in :
      Json
      → Option (List Entry)
      → StreamState provider.State
      → Option Json × StreamState provider.State
  unfolding extras_answer
  extras_in v none st = (none, st)
  extras_in v (some entries) st = extras_answer v (decided (config.detect entries context)) st

  unfoldable pub protect_frame_extras :
      Json → StreamState provider.State → Option Json × StreamState provider.State
  unfolding collect_string_entries extras_in
  protect_frame_extras v st =
      extras_in v
        (collect_string_entries provider.short_hash (max_nesting_depth config.max_depth) v []) st

  abbrev pub push_committed :
      ℕ → Text → StreamState provider.State → Option Text × StreamState provider.State
  unfolding transform_segment
  push_committed zero pending st = (some [], record st { pending = pending })
  push_committed (suc n) pending st =
      transform_segment (take (suc n) pending) (record st { pending = drop (suc n) pending })

  unfoldable pub push : Text → StreamState provider.State → Option Text × StreamState provider.State
  unfolding push_committed commit_length detect_text
  push text st =
      push_committed
        (commit_length max_match (st.pending ++ text) (detect_text (st.pending ++ text)))
        (st.pending ++ text) st

  abbrev pub flush_text :
      Text → StreamState provider.State → Option Text × StreamState provider.State
  unfolding transform_segment
  flush_text [] st = (some [], st)
  flush_text (c ∷ s) st = transform_segment (c ∷ s) (record st { pending = [] })

  unfoldable pub flush : StreamState provider.State → Option Text × StreamState provider.State
  unfolding flush_text
  flush st = flush_text st.pending st

  unfoldable pub create_stream_protector : Protector (StreamState provider.State)
  unfolding push flush protect_text protect_frame_extras
  create_stream_protector = record {
    push_text = push;
    flush = flush;
    protect_text = protect_text;
    protect_frame_extras = protect_frame_extras;
  }
