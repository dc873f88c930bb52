-- ===== src/Auth/Examples.antt =====
-- Requests with credentials, and the theorems there.
use demumumind_panel.Shared.{String, ◌≡◌, refl, some, [], ◌∷◌}
use demumumind_panel.Shared.Dict.{lookup}
use demumumind_panel.Text.{◌+s◌, nonempty, lower, strip, partition, or_text}
use demumumind_panel.Auth.{
  Request, hash_key, raw_key, or_key, bearer_token, client_key_hash, get_agent_type,
}
use demumumind_panel.Manager.{present}

abbrev digest : String → String → String
digest salt s = salt +s s

-- An empty x-api-key, and a bearer token.
abbrev request : Request
request = record {
  headers = ("x-api-key", "") ∷ ("authorization", "Bearer k1 ") ∷ ("x-agent-type", " ") ∷ [];
  query_params = ("key", "k2") ∷ [];
}

client_run : client_key_hash digest "s" ("sk1" ∷ []) request ≡ some "sk1"
unfolding client_key_hash hash_key lookup ◌+s◌ nonempty raw_key or_key present bearer_token
    partition lower strip
client_run = refl

agent_run : get_agent_type request ≡ "default"
unfolding get_agent_type lookup strip or_text nonempty
agent_run = refl
