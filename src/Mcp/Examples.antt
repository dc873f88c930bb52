-- ===== src/Mcp/Examples.antt =====
-- A bridge with one server and one permission, and its theorems there.
use demumumind_panel.Shared.{String, ◌≡◌, refl, Bool, true, false, some, [], ◌∷◌, ◌==◌, pos, negsuc}
use demumumind_panel.Text.{◌+s◌}
use demumumind_panel.Json.{
  Value, Fields, field, end, str, dict, int, get, get_or, get?, or_value, truthy,
}
use demumumind_panel.Pool.{response}
use demumumind_panel.Mcp.{
  McpEnv, McpWorld, is_permitted, find_permission, with_error, handle, shown,
}
use demumumind_panel.Mcp.Laws.{tools_call_needs_permission}

abbrev equal : Value → String → Bool
equal (str s) t = s == t
equal v t = false

abbrev env : McpEnv
env = record {
  client = λ before r. response 200 "{}" (some (dict (field "result" (str "done") end)));
  uuid4 = λ n. "id";
  sql_eq = equal;
  to_str = λ v. "?";
  version = "1";
  permissions =
      record {
        agent_type = "default";
        tool_name = "search";
        allowed = true;
        budget_per_day = pos 0;
      }
      ∷ [];
  servers = record { name = "s"; base_url = "http://s" } ∷ [];
}

abbrev start : McpWorld
start = record { sent = []; uuids = 0 }

abbrev call_params : String → Fields
call_params tool = field "server" (str "s") (field "tool" (str tool) end)

abbrev call : String → Fields
call tool =
    field "id" (int (pos 7))
      (field "method" (str "tools/call") (field "params" (dict (call_params tool)) end))

shell_off :
    is_permitted env
      (get_or "agent_type" (str "default") (call_params "shell"))
      (get_or "tool" (str "") (call_params "shell"))
    ≡ false
unfolding is_permitted find_permission get_or get?
shell_off = refl

tools_call_needs_permission_example : handle env (call "shell") start ≡ (
  with_error env (get "id" (call "shell")) (negsuc 32602) (
      "Tool not permitted for agent_type "
      +s shown env (get_or "agent_type" (str "default") (call_params "shell"))
      +s ": "
      +s shown env (get_or "tool" (str "") (call_params "shell"))),
  start,
)
tools_call_needs_permission_example =
    tools_call_needs_permission env (call "shell") (call_params "shell") start
      (unfold get_or get? in refl) (unfold or_value get get? truthy in refl) shell_off
