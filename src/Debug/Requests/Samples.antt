-- ===== src/Debug/Requests/Samples.antt =====
-- The theorems on the breakpoint tools and on variable queries at concrete calls.
use aibap_mcp.Base.{true, false, bytes}
use aibap_mcp.Debug.Values.{Fields, no_fields, field, string, float64, whole, pos}
use aibap_mcp.Debug.Variables.{VariableQuery}

abbrev asked : Fields
asked =
    field (bytes "variable_name") (string (bytes "LT_ITEMS"))
      (field (bytes "limit") (float64 (whole (pos 50))) no_fields)

abbrev query : VariableQuery
query = record { name = bytes "LT_ITEMS"; expand = false; table = true; offset = 1; limit = 50 }
