-- ===== src/Admin/Examples.antt =====
-- A key that is made and deleted, and a provider that is deleted with its model.
use demumumind_panel.Admin.{db_of}
use demumumind_panel.Json.{loads}
use demumumind_panel.Manager.Reload.{load_mappings}
use demumumind_panel.Manager.Reload.{load_models}
use demumumind_panel.Manager.Reload.{load_providers}
use demumumind_panel.Manager.Reload.{reload}
use demumumind_panel.Text.{◌+s◌}
use demumumind_panel.Shared.Dict.{lookup}
use demumumind_panel.Shared.{String, ◌≡◌, refl, true, none, some, List, [], ◌∷◌, pos}
use demumumind_panel.Json.{Value, end, blank}
use demumumind_panel.Errors.{ok}
use demumumind_panel.Text.{nonempty}
use demumumind_panel.Auth.{Request, hash_key, client_key_hash}
use demumumind_panel.Manager.{init}
use demumumind_panel.Manager.Write.{CreateProviderRequest, CreateModelRequest}
use demumumind_panel.Admin.{ApiKey, Admin, hashes, refreshed}
use demumumind_panel.Admin.Keys.{
  CreateApiKeyRequest, ApiKeyCreated, create_key, find_key, delete_key,
}
use demumumind_panel.Admin.Keys.Laws.{key_created, key_deleted}
use demumumind_panel.Admin.Providers.Laws.{
  Command, creates_provider, creates_model, adds_key, deletes_provider, run, IsReferenced,
  run-IsReferenced,
}

abbrev to_str : Value → String
to_str v = "{}"

-- an hmac that is the text itself
abbrev hmac_sha256 : String → String → String
hmac_sha256 k s = s

abbrev empty : Admin
empty = record { providers = []; models = []; api_keys = []; provider_keys = []; manager = init }

abbrev body : CreateApiKeyRequest
body = record { group_id = none; model_mapping = end; monthly_budget = pos 0 }

abbrev after : Admin
after = (create_key to_str hmac_sha256 "k" "i" "ab" body empty).1

abbrev made : ApiKeyCreated
made = record { id = "i"; api_key = "dm-ab" }

abbrev request : Request
request = record { headers = ("x-api-key", "dm-ab") ∷ []; query_params = [] }

is_made : create_key to_str hmac_sha256 "k" "i" "ab" body empty ≡ (ok made, after)
unfolding create_key loads ◌+s◌ load_providers reload load_mappings load_models db_of refreshed
is_made = refl

header : lookup "x-api-key" request.headers ≡ some "dm-ab"
unfolding lookup
header = refl

key_created_example :
    client_key_hash hmac_sha256 "k" (hashes after) request ≡ some (hash_key hmac_sha256 "k" "dm-ab")
key_created_example =
    key_created to_str hmac_sha256 "k" "i" "ab" body empty after made request is_made header

abbrev key : ApiKey
key = record {
  id = "i";
  key_hash = "dm-ab";
  group_id = none;
  model_mapping = blank;
  monthly_budget = pos 0;
}

abbrev one_key : Admin
one_key = record empty { api_keys = key ∷ [] }

found : find_key "i" (key ∷ []) ≡ some key
unfolding find_key
found = refl

hashed : key.key_hash ≡ hash_key hmac_sha256 "k" "dm-ab"
unfolding hash_key
hashed = refl

some_text : nonempty "dm-ab" ≡ true
unfolding nonempty
some_text = refl

key_deleted_example :
    client_key_hash hmac_sha256 "k" (hashes (delete_key to_str "i" one_key).1) request ≡ none
key_deleted_example =
    key_deleted to_str hmac_sha256 "k" "i" "dm-ab" key one_key request (refl, tt) found hashed
      some_text header

abbrev provider : CreateProviderRequest
provider = record {
  name = "acme";
  base_url = "http://x";
  api_key = none;
  protocol = "openai";
  is_default = true;
  is_active = true;
  metadata = end;
}

abbrev model : CreateModelRequest
model = record {
  provider_id = "p";
  user_model_id = "gpt";
  internal_model = "gpt-4";
  metadata = end;
  is_active = true;
}

abbrev commands : List Command
commands =
    creates_provider "p" provider
    ∷ creates_model "m" model
    ∷ adds_key "a" "p" "secret"
    ∷ deletes_provider "p"
    ∷ creates_model "n" model
    ∷ []

run-IsReferenced_example : IsReferenced (run to_str commands empty)
run-IsReferenced_example = run-IsReferenced to_str commands empty (tt, tt)
