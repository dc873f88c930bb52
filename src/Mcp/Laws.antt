-- ===== src/Mcp/Laws.antt =====
-- What the bridge answers and sends.
use demumumind_panel.Shared.{
  ◌+◌, ◌≤◌, String, ◌≡◌, refl, ◌⊎◌, inl, inr, false, ◌==◌, arith, length, Bool-cases, ℤ, negsuc,
}
use demumumind_panel.Text.{◌+s◌}
use demumumind_panel.Json.{Value, Fields, end, str, dict, get, get_or, or_value}
use demumumind_panel.Errors.{Result, ok, raise}
use demumumind_panel.Manager.Reload.Priority.{Result-cases}
use demumumind_panel.Mcp.{
  McpEnv, McpWorld, server, call_server, fresh, tools_list, tools_call, is_permitted, with_result,
  with_error, answer, text_of, call_method, call_with, is_method, handle, shown,
}

module _ (env : McpEnv) where
  -- A response of JSON-RPC: the id of the request, and either a result or an error.
  abbrev pub Responds : Value → Fields → Type 0
  Responds rid r =
      ((v : Value) × (r ≡ with_result env rid v))
      ⊎ ((code : ℤ) × (message : String) × (r ≡ with_error env rid code message))

  -- At most one request is sent.
  abbrev pub SendsOne : McpWorld → McpWorld → Type 0
  SendsOne w w' = length w'.sent ≤ length w.sent + 1

  answer-Responds :
      (rid : Value) (r : Result Value × McpWorld)
      → Responds rid (answer env rid r).0 × ((answer env rid r).1 ≡ r.1)
  unfolding answer
  answer-Responds rid (ok v, w) = (inl (v, refl), refl)
  answer-Responds rid (raise e, w) = (inr (_, _, refl), refl)

  tools_list-SendsOne : (name : Value) (w : McpWorld) → SendsOne w (tools_list env name w).1
  unfolding tools_list call_server fresh
  tools_list-SendsOne name w = elim (Result-cases (server env name)) [
    | inl (s, e) ↦ rw (e, tools_list) (omega arith)
    | inr (x, e) ↦ rw (e, tools_list) (omega arith)
  ]

  tools_call-SendsOne :
      (name tool arguments agent_type : Value) (w : McpWorld)
      → SendsOne w (tools_call env name tool arguments agent_type w).1
  unfolding tools_call call_server fresh
  tools_call-SendsOne name tool arguments agent_type w =
      elim (Bool-cases (is_permitted env agent_type tool)) [
        | inr off ↦ rw (off, tools_call) (omega arith)
        | inl on ↦ elim (Result-cases (server env name)) [
          | inl (s, e) ↦ rw (on, tools_call, e) (omega arith)
          | inr (x, e) ↦ rw (on, tools_call, e) (omega arith)
        ]
      ]

  call_method-SendsOne :
      (method : String) (params : Fields) (w : McpWorld)
      → SendsOne w (call_method env method params w).1
  unfolding call_method
  call_method-SendsOne method params w = elim (Bool-cases (method == "initialize")) [
    | inl e ↦ rw e (omega arith)
    | inr e ↦ elim (Bool-cases (method == "tools/list")) [
      | inl e' ↦ rw (e, e') (tools_list-SendsOne _ w)
      | inr e' ↦ rw (e, e') (tools_call-SendsOne _ _ _ _ w)
    ]
  ]

  call_with-SendsOne :
      (method : String) (params : Value) (w : McpWorld)
      → SendsOne w (call_with env method params w).1
  unfolding call_with
  call_with-SendsOne method (dict params) w = call_method-SendsOne method params w
  call_with-SendsOne method (str s) w = omega arith
  call_with-SendsOne method _ w = omega arith

  -- Every request is answered by a JSON-RPC response with the id of the request that is either a
  -- result or an error, and at most one request goes to an upstream server for it.
  pub handle-Responds :
      (body : Fields) (w : McpWorld)
      → Responds (get "id" body) (handle env body w).0 × SendsOne w (handle env body w).1
  unfolding handle
  handle-Responds body w = elim (Bool-cases (is_method env (get_or "method" (str "") body))) [
    | inr off ↦ rw (off, handle) (inr (_, _, refl), omega arith)
    | inl on ↦
        let r =
          call_with env (shown env (get_or "method" (str "") body))
            (or_value (get "params" body) (dict end)) w in
        let (responds, same) = answer-Responds (get "id" body) r in
        rw (on, handle) (responds, rw same (call_with-SendsOne _ _ w))
  ]

  -- A call of a tool that is not permitted to the agent type of the request, because there is no
  -- permission or it is not set to allowed, is answered by the error -32603 and sends nothing.
  pub tools_call_needs_permission :
      (body params : Fields) (w : McpWorld)
      → get_or "method" (str "") body ≡ str "tools/call"
      → or_value (get "params" body) (dict end) ≡ dict params
      → is_permitted env
          (get_or "agent_type" (str "default") params)
          (get_or "tool" (str "") params)
        ≡ false
      → handle env body w ≡ (
        with_error env (get "id" body) (negsuc 32602) (
            "Tool not permitted for agent_type "
            +s shown env (get_or "agent_type" (str "default") params)
            +s ": "
            +s shown env (get_or "tool" (str "") params)),
        w,
      )
  unfolding handle call_with call_method tools_call is_method answer shown text_of
  tools_call_needs_permission body params w called given off = rw (called, given, off) refl
