-- ===== src/Admin/Mcp/Examples.antt =====
-- A permission that is made on empty tables.
use demumumind_panel.Shared.{String, ◌≡◌, refl, Bool, true, false, some, [], ◌∷◌, ◌==◌, pos}
use demumumind_panel.Json.{Value, dict, end, str}
use demumumind_panel.Errors.{ok}
use demumumind_panel.Pool.{response}
use demumumind_panel.Mcp.{McpEnv, McpPermission, is_permitted}
use demumumind_panel.Admin.Mcp.{Tables, bridge, create_mcp_permission}
use demumumind_panel.Admin.Mcp.Laws.{permission_created}

abbrev equal : Value → String → Bool
equal (str s) t = s == t
equal v t = false

abbrev env : McpEnv
env = record {
  client = λ before r. response 200 "{}" (some (dict end));
  uuid4 = λ n. "id";
  sql_eq = equal;
  to_str = λ v. "?";
  version = "1";
  permissions = [];
  servers = [];
}

abbrev search : McpPermission
search = record {
  agent_type = "default";
  tool_name = "search";
  allowed = true;
  budget_per_day = pos 0;
}

abbrev empty : Tables
empty = record { servers = []; permissions = [] }

abbrev after : Tables
after = record { servers = []; permissions = ("i", search) ∷ [] }

made : create_mcp_permission "i" search empty ≡ (ok true, after)
unfolding create_mcp_permission
made = refl

permission_created_example : is_permitted (bridge env after) (str "default") (str "search") ≡ true
permission_created_example = permission_created env "i" search empty after (λ x y. refl) made
