-- ===== src/Protocol/Wire.antt =====
-- crates/kiliax-llm/src/types.rs and tool_names.rs: the spelling of finish reasons and tool names
-- on the wire.
use kiliax.Prelude.{◌≡◌, ◌≢◌, arith, if◌then◌else◌}
use kiliax.Text.{Text, codes, Text-discrete, text_eq}

pub data FinishReason : Type 0 where
  stop length tool_calls content_filter function_call stop_sequence refusal pause_turn :
      FinishReason
  other : Text → FinishReason

unfoldable pub as_wire_str : FinishReason → Text
as_wire_str FinishReason.stop = codes "stop"
as_wire_str FinishReason.length = codes "length"
as_wire_str FinishReason.tool_calls = codes "tool_calls"
as_wire_str FinishReason.content_filter = codes "content_filter"
as_wire_str FinishReason.function_call = codes "function_call"
as_wire_str FinishReason.stop_sequence = codes "stop_sequence"
as_wire_str FinishReason.refusal = codes "refusal"
as_wire_str FinishReason.pause_turn = codes "pause_turn"
as_wire_str (FinishReason.other value) = value

unfoldable pub from_wire_str : Text → FinishReason
from_wire_str value =
    if text_eq value (codes "stop")
    then FinishReason.stop
    else if text_eq value (codes "length")
    then FinishReason.length
    else if text_eq value (codes "tool_calls")
    then FinishReason.tool_calls
    else if text_eq value (codes "content_filter")
    then FinishReason.content_filter
    else if text_eq value (codes "function_call")
    then FinishReason.function_call
    else if text_eq value (codes "stop_sequence")
    then FinishReason.stop_sequence
    else if text_eq value (codes "refusal")
    then FinishReason.refusal
    else if text_eq value (codes "pause_turn")
    then FinishReason.pause_turn
    else FinishReason.other value

-- Reading a text and writing the reason gives the text back, for every text.
pub as_wire_str-from_wire_str : (s : Text) → as_wire_str (from_wire_str s) ≡ s
unfolding as_wire_str from_wire_str
as_wire_str-from_wire_str s = ground arith

unfoldable pub to_wire_tool_name : Text → Text
to_wire_tool_name name =
    if text_eq name (codes "web_search") then codes "kiliax_web_search" else name

unfoldable pub to_internal_tool_name : Text → Text
to_internal_tool_name name =
    if text_eq name (codes "kiliax_web_search") then codes "web_search" else name

-- Every name but `kiliax_web_search` survives the way to the provider and back.
pub to_internal_tool_name-to_wire_tool_name :
    (name : Text)
    → name ≢ codes "kiliax_web_search"
    → to_internal_tool_name (to_wire_tool_name name) ≡ name
unfolding to_internal_tool_name to_wire_tool_name Text-discrete
to_internal_tool_name-to_wire_tool_name name h = ground arith
