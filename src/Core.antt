-- ===== src/Core.antt =====
-- packages/core/index.mjs: what one payload goes through, in the order of `protectJson`. This file
-- has the detections that the parts pass on; the children model the parts.
pub mod Precision
pub mod Entries
pub mod Payload
pub mod Events
pub mod Protect
pub mod StreamProtector
pub mod Transform
mod Tests
mod PipelineTests
use haechi.Stream.Paths.{Part}
use haechi.Prelude.{ℕ, String, Bool, true, false, Option, List, ◌||◌, str_eq, Text}

-- The kinds of entry: the text of a value, of an object's key, or of a number.
pub data Kind : Type 0 where
  in_value in_key in_number : Kind

-- A detection of the filter engine. `confidence` is in hundredths, `none` where the rule gives
-- none or no finite number; `start` and `end` are positions in the entry's text.
pub record Detection : Type 0 where
  pub type : String
  pub rule_id : String
  pub path : List Part
  pub path_text : Text
  pub kind : Kind
  pub value : Text
  pub start : ℕ
  pub end : ℕ
  pub confidence : Option ℕ
