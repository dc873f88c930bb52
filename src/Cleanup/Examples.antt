-- ===== src/Cleanup/Examples.antt =====
-- A cleanup of small tables, and the theorem there.
use demumumind_panel.Shared.{◌&&◌, ◌≡◌, refl, true, none, some, [], ◌∷◌, pos}
use demumumind_panel.Errors.{ok}
use demumumind_panel.Json.{blank}
use demumumind_panel.Pool.{failure}
use demumumind_panel.Manager.{init}
use demumumind_panel.Dispatch.{World}
use demumumind_panel.Cleanup.{Tools}
use demumumind_panel.Cleanup.Run.{Tables, refers_to, run_cleanup}
use demumumind_panel.Cleanup.Laws.{has_group, implies, ids, is_referred, run_cleanup_keeps}

-- No provider answers.
abbrev tools : Tools
tools = record {
  env = record { clock = λ n. n; second = 1; client = λ before r. failure "ConnectError" };
  codec = record { float_of = λ s. none; to_str = λ v. "?" };
  parsed = λ s. none;
  int_of = λ v. ok (pos 0);
}

abbrev tables : Tables
tables = record {
  providers =
      record {
        id = "p";
        name = "acme";
        base_url = "http://x";
        api_key = none;
        protocol = "openai";
        is_default = true;
        is_active = true;
        meta = blank;
      }
      ∷ [];
  models =
      record {
        id = "m";
        provider_id = "p";
        user_model_id = "a";
        internal_model = "a";
        is_active = true;
        meta = blank;
      }
      ∷ [];
  groups =
      record { id = "g"; name = "g"; parent_group_id = none }
      ∷ record { id = "h"; name = "h"; parent_group_id = some "g" }
      ∷ [];
  api_keys = [];
  usage = [];
}

abbrev world : World
world = record { manager = init; sent = []; readings = 0 }

g_referred : is_referred "g" tables.groups tables.api_keys ≡ true
unfolding refers_to
g_referred = refl

run_cleanup_keeps_example :
    (ids (run_cleanup tools 0 none tables world).1.models ≡ ids tables.models)
    × (implies
          (is_referred "g" tables.groups tables.api_keys && has_group "g" tables.groups)
          (has_group "g" (run_cleanup tools 0 none tables world).1.groups)
        ≡ true)
run_cleanup_keeps_example = run_cleanup_keeps tools 0 none tables world "g"
