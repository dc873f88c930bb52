-- ===== src/Manager/Write/Examples.antt =====
-- A table with a default provider, and the theorem there.
use demumumind_panel.Shared.{◌≤◌, true, none, some, List, [], ◌∷◌, arith}
use demumumind_panel.Json.{end, blank}
use demumumind_panel.Manager.{ProviderRow}
use demumumind_panel.Manager.Write.{
  CreateProviderRequest, UpdateProviderRequest, insert_provider, update_provider,
}
use demumumind_panel.Manager.Write.Default.{defaults, one_default}

abbrev rows : List ProviderRow
rows =
    record {
      id = "p";
      name = "acme";
      base_url = "http://x";
      api_key = none;
      protocol = "openai";
      is_default = true;
      is_active = true;
      meta = blank;
    }
    ∷ []

abbrev create : CreateProviderRequest
create = record {
  name = "beta";
  base_url = "http://y";
  api_key = none;
  protocol = "openai";
  is_default = true;
  is_active = true;
  metadata = end;
}

abbrev update : UpdateProviderRequest
update = record {
  base_url = none;
  api_key = none;
  protocol = none;
  is_default = some true;
  is_active = none;
  metadata = none;
}

one_default_example :
    (defaults (insert_provider "q" create rows) ≤ 1)
    × (defaults (update_provider "p" update rows) ≤ 1)
one_default_example = one_default "q" "p" create update rows (omega arith)
