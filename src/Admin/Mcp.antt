-- ===== src/Admin/Mcp.antt =====
-- The endpoints for the tables of the MCP bridge of app/api/v1/admin_routes.py. The id of a new row is
-- an argument; rows stand in the order of their creation.
pub mod Laws
mod Examples
use demumumind_panel.Shared.{
  ℕ, String, Bool, true, false, not, ◌&&◌, Option, none, List, [], ◌∷◌, ◌++◌, ◌==◌, any, keep, map,
  ℤ, if◌then◌else◌,
}
use demumumind_panel.Text.{◌+s◌}
use demumumind_panel.Errors.{Result, ok, raise, app, not_found_error}
use demumumind_panel.Mcp.{McpPermission, McpServer, McpEnv}
use demumumind_panel.Admin.{PaginatedResponse, page}
use demumumind_panel.Admin.Providers.{duplicate}

-- the rows with their ids
pub record Tables : Type 0 where
  pub servers : List (String × McpServer)
  pub permissions : List (String × McpPermission)

-- the bridge on these tables
abbrev pub bridge : McpEnv → Tables → McpEnv
bridge env t = record env {
  permissions = map (λ e. e.1) t.permissions;
  servers = map (λ e. e.1) t.servers;
}

-- `list_mcp_servers`
unfoldable pub list_mcp_servers : ℕ → ℕ → Tables → PaginatedResponse (String × McpServer)
list_mcp_servers limit offset t = page limit offset t.servers

-- `create_mcp_server`; the column `name` is unique
unfoldable pub create_mcp_server : String → McpServer → Tables → Result Bool × Tables
create_mcp_server id body t =
    if any (λ e. e.1.name == body.name) t.servers
    then (raise (app (duplicate "MCP server name already exists")), t)
    else (ok true, record t { servers = t.servers ++ (id, body) ∷ [] })

-- `delete_mcp_server`
unfoldable pub delete_mcp_server : String → Tables → Result Bool × Tables
delete_mcp_server id t =
    if any (λ e. e.0 == id) t.servers
    then (ok true, record t { servers = keep (λ e. not (e.0 == id)) t.servers })
    else (raise (app (not_found_error ("MCP server not found: " +s id) none none)), t)

-- `list_mcp_permissions`
unfoldable pub list_mcp_permissions : ℕ → ℕ → Tables → PaginatedResponse (String × McpPermission)
list_mcp_permissions limit offset t = page limit offset t.permissions

-- `create_mcp_permission`; an agent type and a tool stand once together
unfoldable pub create_mcp_permission : String → McpPermission → Tables → Result Bool × Tables
create_mcp_permission id body t =
    if any (λ e. e.1.agent_type == body.agent_type && e.1.tool_name == body.tool_name) t.permissions
    then (raise (app (duplicate "Permission already exists for agent/tool")), t)
    else (ok true, record t { permissions = t.permissions ++ (id, body) ∷ [] })

-- `delete_mcp_permission`
unfoldable pub delete_mcp_permission : String → Tables → Result Bool × Tables
delete_mcp_permission id t =
    if any (λ e. e.0 == id) t.permissions
    then (ok true, record t { permissions = keep (λ e. not (e.0 == id)) t.permissions })
    else (raise (app (not_found_error ("MCP permission not found: " +s id) none none)), t)
