-- ===== src/Dispatch/Stream/Examples.antt =====
-- A stream on the sample panel that breaks off, and the theorems there.
use demumumind_panel.Json.{get}
use demumumind_panel.Cache.Key.{get_stream}
use demumumind_panel.Cache.Key.{set_stream}
use demumumind_panel.Dispatch.StreamUsage.{join_bytes, extract_stream_usage}
use demumumind_panel.Dispatch.StreamUsage.{stream_tokens}
use demumumind_panel.Text.{drop_chars}
use demumumind_panel.Dispatch.Stream.{stream_of}
use demumumind_panel.Json.{truthy}
use demumumind_panel.Manager.{is_free}
use demumumind_panel.Manager.{limits}
use demumumind_panel.Manager.{pricing}
use demumumind_panel.Cache.{set}
use demumumind_panel.Dispatch.Call.{record_row}
use demumumind_panel.Dispatch.Call.{write_cache}
use demumumind_panel.Dispatch.Usage.{record_db_usage}
use demumumind_panel.Manager.Keys.{count_of}
use demumumind_panel.Manager.Keys.{find_ready}
use demumumind_panel.Manager.Keys.{is_ready}
use demumumind_panel.Manager.Keys.{pick_key}
use demumumind_panel.Cache as Cache
use demumumind_panel.Dispatch.Call.{is_cold}
use demumumind_panel.Dispatch.Call.{read_cache}
use demumumind_panel.Json.{is_null}
use demumumind_panel.Text.{join}
use demumumind_panel.Translate.{normalize_protocol}
use demumumind_panel.Translate.Route.{translate_request}
use demumumind_panel.Dispatch.Call.{find_model}
use demumumind_panel.Dispatch.Call.{◌>>=◌}
use demumumind_panel.Dispatch.Prompt.{prompt_of}
use demumumind_panel.Json.{get_or}
use demumumind_panel.Json.{to_list}
use demumumind_panel.Manager.{init}
use demumumind_panel.Manager.{kind}
use demumumind_panel.Manager.Resolve.{build_resolved}
use demumumind_panel.Manager.Resolve.{explicit}
use demumumind_panel.Manager.Resolve.{is_usable}
use demumumind_panel.Manager.Resolve.{resolve}
use demumumind_panel.Manager.Resolve.{target_of}
use demumumind_panel.Translate.Values.{as_dict}
use demumumind_panel.Translate.Values.{iterate_of}
use demumumind_panel.Translate.Values.{traverse}
use demumumind_panel.Shared.{◌≡◌, refl, ap, true, false, Option, none, some, [], ◌∷◌, arith, length}
use demumumind_panel.Errors.{Result, ok, raise, other}
use demumumind_panel.Manager.Keys.{active_keys}
use demumumind_panel.Dispatch.Samples.{setup, panel, chat_of}
use demumumind_panel.Dispatch.Call.{Panel}
use demumumind_panel.Manager.{ResolvedModel}
use demumumind_panel.Manager.Resolve.{resolve}
use demumumind_panel.Dispatch.Prompt.{prompt_of}
use demumumind_panel.Dispatch.Call.{find_model}
use demumumind_panel.Dispatch.Call.Runs.{Runs}
use demumumind_panel.Shared.Dict.{lookup}
use demumumind_panel.Text.{nonempty}
use demumumind_panel.Manager.{present}
use demumumind_panel.Manager.Keys.{primary}
use demumumind_panel.Dispatch.Stream.{Delivered, chat_completion_stream}
use demumumind_panel.Dispatch.Stream.Replayed.{chat_completion_stream_again}

abbrev after : Panel
after = (chat_completion_stream setup (chat_of "hello") panel).1

abbrev delivered : Delivered
delivered = record { chunks = (49 ∷ []) ∷ (226 ∷ []) ∷ []; result = raise (other "ReadError" "") }

streamed : (chat_completion_stream setup (chat_of "hello") panel).0 ≡ some (ok delivered)
unfolding join_bytes chat_completion_stream nonempty to_list traverse ◌>>=◌ target_of is_usable
    explicit stream_of is_cold lookup prompt_of build_resolved iterate_of as_dict init find_model
    resolve extract_stream_usage get_stream join set drop_chars get translate_request
    record_db_usage set_stream read_cache is_null record_row normalize_protocol write_cache
    stream_tokens limits get_or truthy is_free pricing kind Cache.get
streamed = refl

abbrev resolved : ResolvedModel
resolved = record {
  user_model_id = "gpt";
  internal_model = "gpt-4";
  provider_id = "p";
  provider_name = "acme";
  base_url = "http://x";
  protocol = "openai";
  api_key = some "a";
  model_id = some "m";
  pricing = none;
  is_free = false;
  limits = none;
  kind = "chat";
}

found : Runs (find_model setup (chat_of "hello")) panel resolved panel
unfolding find_model resolve get limits get_or truthy target_of lookup is_free pricing
    build_resolved kind is_usable explicit init nonempty
found = refl

found_after : Runs (find_model setup (chat_of "hello")) after resolved after
unfolding join_bytes chat_completion_stream nonempty to_list traverse ◌>>=◌ target_of is_usable
    explicit stream_of is_cold lookup prompt_of build_resolved iterate_of as_dict init find_model
    resolve extract_stream_usage get_stream join set drop_chars get translate_request
    record_db_usage set_stream read_cache is_null record_row normalize_protocol write_cache
    stream_tokens limits get_or truthy is_free pricing kind Cache.get present is_ready find_ready
    pick_key primary count_of active_keys
found_after = refl

sent_after : length after.world.sent ≡ 1
unfolding join_bytes chat_completion_stream nonempty to_list traverse ◌>>=◌ target_of is_usable
    explicit stream_of is_cold lookup prompt_of build_resolved iterate_of as_dict init find_model
    resolve extract_stream_usage get_stream join set drop_chars get translate_request
    record_db_usage set_stream read_cache is_null record_row normalize_protocol write_cache
    stream_tokens limits get_or truthy is_free pricing kind Cache.get
sent_after = refl

cold : is_cold (get "temperature" (chat_of "hello").body) ≡ true
unfolding is_cold get is_null
cold = refl

chat_completion_stream_again_example :
    (q' : Panel) × Runs
      (chat_completion_stream setup (chat_of "hello"))
      after
      (record {
        chunks = setup.encode (setup.decode (join_bytes delivered.chunks)) ∷ [];
        result = ok tt;
      })
      q'
    × (q'.world.sent ≡ after.world.sent)
chat_completion_stream_again_example =
    chat_completion_stream_again setup (chat_of "hello") resolved resolved panel {d = delivered}
      cold (record { distinct = tt; bounded = omega arith; room = omega arith })
      (λ i j. omega arith) found found_after (rw sent_after (omega arith)) refl
      (ap (λ (r : Option (Result Delivered)). (r, after)) streamed)
