-- ===== src/Dispatch/Examples.antt =====
-- A provider with two keys whose first request is rate limited, and the theorems there.
use demumumind_panel.Shared.{
  ℕ, zero, suc, ◌+◌, ◌-◌, ◌≡◌, refl, true, false, none, some, List, [], ◌∷◌, arith, pos,
}
use demumumind_panel.Shared.Dict.{lookup, insert}
use demumumind_panel.Text.{nonempty, prefix_of, lower, contains, contains_any, starts_with}
use demumumind_panel.Failover.{classify, is_auth, has_hint}
use demumumind_panel.Json.{end, dict, null}
use demumumind_panel.Errors.{ok}
use demumumind_panel.Pool.{HttpRequest, Reply, response}
use demumumind_panel.Manager.{Manager, ResolvedModel, init, present}
use demumumind_panel.Manager.Keys.{
  active_keys, primary, pick_key, find_ready, is_ready, count_of, nth, start_of,
  mark_key_rate_limited,
}
use demumumind_panel.Dispatch.{Env, World, monotonic, send}
use demumumind_panel.Dispatch.Request.{
  Task, do_request, settle, try_once, pick, should_retry, cool_down, decoded,
}
use demumumind_panel.Dispatch.Request.Outcome.{Decided, do_request-Decided}
use demumumind_panel.Dispatch.Request.Bound.{Returns, key_count, do_request-Returns}
use demumumind_panel.Dispatch.Usage.{DbReply, committed, operational}

abbrev manager : Manager
manager = record init {
  providers =
      (
        "p",
        record {
          id = "p";
          name = "acme";
          base_url = "http://x";
          api_key = some "a";
          protocol = "openai";
          is_default = true;
          is_active = true;
          metadata = end;
        },
      )
      ∷ [];
  provider_keys = ("p", "b" ∷ []) ∷ [];
}

abbrev resolved : ResolvedModel
resolved = record {
  user_model_id = "gpt";
  internal_model = "gpt";
  provider_id = "p";
  provider_name = "acme";
  base_url = "http://x";
  protocol = "openai";
  api_key = some "a";
  model_id = some "m";
  pricing = some (("prompt", pos 2) ∷ []);
  is_free = false;
  limits = none;
  kind = "chat";
}

abbrev task : Task
task = record {
  resolved = resolved;
  target = "openai";
  body = null;
  request_id = "r";
  path_override = none;
  request_timeout = none;
}

-- The first request gets a 429, the second one an answer.
abbrev client : List HttpRequest → HttpRequest → Reply
client [] r = response 429 "slow down" none
client (q ∷ qs) r = response 200 "{}" (some (dict end))

abbrev env : Env
env = record { clock = λ n. n; second = 10; client = client }

abbrev world : World
world = record { manager = manager; sent = []; readings = 0 }

two_keys : key_count task world ≡ 2
unfolding active_keys present lookup primary nonempty
two_keys = refl

do_request-Returns_example :
    Returns (0 + 1 + (key_count task world - 1 - 0)) (do_request 2 env task 0 world)
do_request-Returns_example =
    do_request-Returns 2 env task 0 world (rw two_keys (omega arith)) (omega arith)

do_request_run : (do_request 2 env task 0 world).0 ≡ some (ok (dict end, 1))
unfolding do_request settle try_once pick monotonic send pick_key find_ready is_ready count_of nth
    start_of active_keys present lookup insert primary nonempty classify is_auth has_hint
    contains_any contains lower starts_with prefix_of should_retry cool_down mark_key_rate_limited
    decoded init
do_request_run = refl

do_request-Decided_example : Decided env task (do_request 2 env task 0 world).1 (ok (dict end, 1))
do_request-Decided_example = do_request-Decided 2 env task 0 world do_request_run

abbrev answers : ℕ → DbReply
answers zero = operational "database is locked"
answers (suc n) = committed
