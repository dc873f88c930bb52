-- ===== src/Mcp.antt =====
-- app/services/mcp.py: the JSON-RPC methods and the gate on tools/call. The HTTP client is the
-- parameter of Dispatch, `uuid4` a sequence of texts, and `sql_eq` whether the database finds a
-- column equal to a value.
pub mod Laws
mod Examples
use demumumind_panel.Shared.{
  ℕ, zero, suc, ◌+◌, String, Bool, true, false, not, Option, none, some, List, [], ◌∷◌, ◌==◌, leb,
  if◌then◌else◌, ℤ, pos, negsuc, ◌&&◌,
}
use demumumind_panel.Text.{◌+s◌, decimal, prefix_of}
use demumumind_panel.Json.{
  Value, Fields, end, field, null, bool, int, str, list, dict, get, get_or, get?, or_value,
}
use demumumind_panel.Errors.{Result, ok, raise, other, Exception, app, validation, http}
use demumumind_panel.Pool.{HttpRequest, Reply, response, failure, request_url}

pub record McpPermission : Type 0 where
  pub agent_type : String
  pub tool_name : String
  pub allowed : Bool
  pub budget_per_day : ℤ

pub record McpServer : Type 0 where
  pub name : String
  pub base_url : String

pub record McpWorld : Type 0 where
  pub sent : List HttpRequest
  pub uuids : ℕ

-- What the service is given.
pub record McpEnv : Type 0 where
  pub client : List HttpRequest → HttpRequest → Reply
  pub uuid4 : ℕ → String
  pub sql_eq : Value → String → Bool
  pub to_str : Value → String
  pub version : String
  pub permissions : List McpPermission
  pub servers : List McpServer

-- f"{v}"
unfoldable pub shown : McpEnv → Value → String
shown env (str s) = s
shown env v = env.to_str v

module _ (env : McpEnv) where
  unfoldable pub fresh : McpWorld → String × McpWorld
  fresh w = (env.uuid4 w.uuids, record w { uuids = w.uuids + 1 })

  find_server : Value → List McpServer → Option McpServer
  find_server name [] = none
  find_server name (s ∷ ss) = if env.sql_eq name s.name then some s else find_server name ss

  -- `_server`
  unfoldable pub server : Value → Result McpServer
  unfolding find_server
  server name = elim (find_server name env.servers) [
    | none ↦ raise (other "ValueError" ("Unknown MCP server: " +s shown env name))
    | some s ↦ ok s
  ]

  -- what `_call_upstream` makes of the reply
  unfoldable pub upstream_reply : Reply → Result Value
  upstream_reply (failure name) = raise (other name "")
  upstream_reply (response status text json) =
      if leb 400 status
      then raise (
          other "ValueError"
            ("upstream MCP error " +s decimal status +s ": " +s prefix_of 200 text))
      else elim json [ none ↦ raise (other "JSONDecodeError" "") | some v ↦ ok v ]

  -- result.get("result", result)
  unfoldable pub result_of : Result Value → Result Value
  result_of (raise e) = raise e
  result_of (ok (dict d)) = ok (get_or "result" (dict d) d)
  result_of (ok (str s)) = raise (other "AttributeError" "get")
  result_of (ok _) = raise (other "AttributeError" "get")

  -- `_call_upstream` with the body of a method, and what its callers read from the result
  unfoldable pub call_server : McpServer → String → Fields → McpWorld → Result Value × McpWorld
  call_server s method params w =
      let (id, w1) = fresh w in
      let body = dict (
        field "jsonrpc" (str "2.0")
          (field "id" (str id) (field "method" (str method) (field "params" (dict params) end)))) in
      let (request_id, w2) = fresh w1 in
      let r =
        request_url s.base_url (("Content-Type", "application/json") ∷ []) "POST" (some body)
          request_id in
      (result_of (upstream_reply (env.client w2.sent r)), record w2 { sent = r ∷ w2.sent })

  -- `tools_list`
  unfoldable pub tools_list : Value → McpWorld → Result Value × McpWorld
  tools_list server_name w = elim (server server_name) [
    | raise e ↦ (raise e, w)
    | ok s ↦ call_server s "tools/list" end w
  ]

  -- the first permission of an agent type for a tool
  unfoldable pub find_permission : Value → Value → List McpPermission → Option McpPermission
  find_permission agent_type tool [] = none
  find_permission agent_type tool (p ∷ ps) =
      if env.sql_eq agent_type p.agent_type && env.sql_eq tool p.tool_name
      then some p
      else find_permission agent_type tool ps

  unfoldable pub is_permitted : Value → Value → Bool
  is_permitted agent_type tool = elim (find_permission agent_type tool env.permissions) [
    | none ↦ false
    | some p ↦ p.allowed
  ]

  -- `tools_call`
  unfoldable pub tools_call : Value → Value → Value → Value → McpWorld → Result Value × McpWorld
  tools_call server_name tool_name arguments agent_type w =
      if is_permitted agent_type tool_name
      then elim (server server_name) [
        | raise e ↦ (raise e, w)
        | ok s ↦
            call_server s "tools/call" (field "name" tool_name (field "arguments" arguments end)) w
      ]
      else (
        raise (
            other "ValueError" (
              "Tool not permitted for agent_type "
              +s shown env agent_type
              +s ": "
              +s shown env tool_name)),
        w,
      )

  -- `initialize`
  unfoldable pub initialize : Fields → Value
  initialize params = dict (
      field "protocolVersion" (get_or "protocolVersion" (str "2024-11-05") params) (
        field "capabilities"
          (dict (field "tools" (dict (field "listChanged" (bool false) end)) end))
          (field "serverInfo"
            (dict (field "name" (str "demumumind-mcp") (field "version" (str env.version) end)))
            (field "clientCapabilities" (or_value (get "capabilities" params) (dict end)) end))))

  unfoldable pub with_result : Value → Value → Fields
  with_result rid v = field "jsonrpc" (str "2.0") (field "id" rid (field "result" v end))

  unfoldable pub with_error : Value → ℤ → String → Fields
  with_error rid code message = field "jsonrpc" (str "2.0") (
      field "id" rid
        (field "error" (dict (field "code" (int code) (field "message" (str message) end))) end))

  -- str(exc)
  unfoldable pub text_of : Exception → String
  text_of (app e) = e.message
  text_of (validation s) = s
  text_of (http status s) = s
  text_of (other name s) = s

  -- the end of `handle`, for a method that it knows
  unfoldable pub answer : Value → Result Value × McpWorld → Fields × McpWorld
  answer rid (ok v, w) = (with_result rid v, w)
  answer rid (raise e, w) = (with_error rid (negsuc 32602) (text_of e), w)

  -- the method of a request with its parameters
  unfoldable pub call_method : String → Fields → McpWorld → Result Value × McpWorld
  call_method method params w =
      if method == "initialize"
      then (ok (initialize params), w)
      else if method == "tools/list"
      then tools_list (get_or "server" (str "") params) w
      else tools_call (get_or "server" (str "") params) (get_or "tool" (str "") params)
          (or_value (get "arguments" params) (dict end))
          (get_or "agent_type" (str "default") params) w

  -- the parameters have to be a dict
  unfoldable pub call_with : String → Value → McpWorld → Result Value × McpWorld
  call_with method (dict params) w = call_method method params w
  call_with method (str s) w = (raise (other "AttributeError" "get"), w)
  call_with method _ w = (raise (other "AttributeError" "get"), w)

  unfoldable pub is_method : Value → Bool
  is_method (str s) =
      if s == "initialize" then true else if s == "tools/list" then true else s == "tools/call"
  is_method _ = false

  -- `handle`
  unfoldable pub handle : Fields → McpWorld → Fields × McpWorld
  handle body w =
      let method = get_or "method" (str "") body in
      let rid = get "id" body in
      if is_method method
      then answer rid (call_with (shown env method) (or_value (get "params" body) (dict end)) w)
      else (with_error rid (negsuc 32600) ("Method not found: " +s shown env method), w)
