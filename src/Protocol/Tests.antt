-- ===== src/Protocol/Tests.antt =====
-- The wire forms at concrete inputs.
use kiliax.Prelude.{◌≡◌, ◌≢◌}
use kiliax.Text.{codes}
use kiliax.Protocol.Wire.{
  to_wire_tool_name, to_internal_tool_name, to_internal_tool_name-to_wire_tool_name,
}

differs : codes "web_search" ≢ codes "kiliax_web_search"
differs h = cc

to_internal_tool_name-to_wire_tool_name_example :
    to_internal_tool_name (to_wire_tool_name (codes "web_search")) ≡ codes "web_search"
to_internal_tool_name-to_wire_tool_name_example =
    to_internal_tool_name-to_wire_tool_name (codes "web_search") differs
