-- ===== src/Admin/Mcp/Laws.antt =====
-- Permissions that are made, and the bridge after that.
use demumumind_panel.Shared.{
  String, ◌≡◌, refl, ap, Bool, true, false, ◌&&◌, some, List, [], ◌∷◌, ◌++◌, ◌==◌, any, map,
  if◌then◌else◌, Bool-cases, inl, inr, arith, eq_iff,
}
use demumumind_panel.Json.{str}
use demumumind_panel.Errors.{Result, ok, raise, Exception}
use demumumind_panel.Mcp.{McpPermission, McpEnv, find_permission, is_permitted}
use demumumind_panel.Admin.Mcp.{Tables, bridge, create_mcp_permission}

module _ (env : McpEnv) (exact : (s t : String) → env.sql_eq (str s) t ≡ (s == t)) where
  found_last :
      (id : String) (body : McpPermission) (ps : List (String × McpPermission))
      → any (λ e. e.1.agent_type == body.agent_type && e.1.tool_name == body.tool_name) ps ≡ false
      → find_permission env
          (str body.agent_type)
          (str body.tool_name)
          (map (λ e. e.1) (ps ++ (id, body) ∷ []))
        ≡ some body
  unfolding find_permission
  found_last id body [] new = ground (
    arith,
    exact body.agent_type body.agent_type,
    exact body.tool_name body.tool_name,
    eq_iff body.agent_type body.agent_type,
    eq_iff body.tool_name body.tool_name,
  )
  found_last id body ((j, p) ∷ ps) new = ground (
    arith,
    new,
    found_last id body ps,
    exact body.agent_type p.agent_type,
    exact body.tool_name p.tool_name,
    eq_iff body.agent_type p.agent_type,
    eq_iff p.agent_type body.agent_type,
    eq_iff body.tool_name p.tool_name,
    eq_iff p.tool_name body.tool_name,
  )

  not_made :
      {e : Exception} {t t' : Tables}
      → ◌≡◌ {A = Result Bool × Tables} (raise e, t) (ok true, t')
      → ⊥
  not_made h = ground (arith, h)

-- Where the database compares texts exactly: a permission that `create_mcp_permission` makes for an
-- agent type and a tool decides from then on whether the bridge lets this agent type call this tool.
pub permission_created :
    (env : McpEnv) (id : String) (body : McpPermission) (t t' : Tables)
    → ((x y : String) → env.sql_eq (str x) y ≡ (x == y))
    → create_mcp_permission id body t ≡ (ok true, t')
    → is_permitted (bridge env t') (str body.agent_type) (str body.tool_name) ≡ body.allowed
unfolding create_mcp_permission is_permitted find_permission
permission_created env id body t t' exact made =
    let same = λ (e : String × McpPermission).
      e.1.agent_type == body.agent_type && e.1.tool_name == body.tool_name in
    elim (Bool-cases (any same t.permissions)) [
      | inl taken ↦ absurd (not_made env exact (rw (taken, if◌then◌else◌) at made))
      | inr free ↦
          let ps : t.permissions ++ (id, body) ∷ [] ≡ t'.permissions =
            ap (λ (o : Result Bool × Tables). o.1.permissions) (rw (free, if◌then◌else◌) at made) in
          let found = found_last (bridge env t') exact id body t.permissions free in
          rw (← ps, found, is_permitted) refl
    ]
