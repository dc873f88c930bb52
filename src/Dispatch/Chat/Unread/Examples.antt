-- ===== src/Dispatch/Chat/Unread/Examples.antt =====
-- Two calls with different contents and no "messages" on the sample panel.
use demumumind_panel.Json.{get}
use demumumind_panel.Manager.Keys.{mark_key_rate_limited}
use demumumind_panel.Shared.Dict.{insert}
use demumumind_panel.Json.{truthy}
use demumumind_panel.Manager.{is_free}
use demumumind_panel.Manager.{limits}
use demumumind_panel.Manager.{pricing}
use demumumind_panel.Cache.{set}
use demumumind_panel.Cache.Key.{set_cached}
use demumumind_panel.Dispatch.Call.{record_row}
use demumumind_panel.Dispatch.Call.{write_cache}
use demumumind_panel.Dispatch.Cost.{attribute_get}
use demumumind_panel.Dispatch.Cost.{tokens_from}
use demumumind_panel.Dispatch.Cost.{two_counts}
use demumumind_panel.Dispatch.Prompt.{answer_text}
use demumumind_panel.Dispatch.Prompt.{choice_content}
use demumumind_panel.Dispatch.Request.{decoded}
use demumumind_panel.Dispatch.Usage.{record_db_usage}
use demumumind_panel.Guardrails.{validate_output}
use demumumind_panel.Manager.Keys.{start_of}
use demumumind_panel.Translate.Responses.{first_of}
use demumumind_panel.Translate.Route.{translate_response}
use demumumind_panel.Translate.Values.{get_of}
use demumumind_panel.Dispatch.{send}
use demumumind_panel.Dispatch.Request.{cool_down}
use demumumind_panel.Dispatch.Request.{pick}
use demumumind_panel.Dispatch.Request.{should_retry}
use demumumind_panel.Dispatch.Request.{try_once}
use demumumind_panel.Failover.{classify}
use demumumind_panel.Failover.{has_hint}
use demumumind_panel.Failover.{is_auth}
use demumumind_panel.Manager.Keys.{count_of}
use demumumind_panel.Manager.Keys.{find_ready}
use demumumind_panel.Manager.Keys.{is_ready}
use demumumind_panel.Manager.Keys.{nth}
use demumumind_panel.Manager.Keys.{pick_key}
use demumumind_panel.Text.{contains_any}
use demumumind_panel.Cache as Cache
use demumumind_panel.Cache.Key.{get_cached}
use demumumind_panel.Dispatch.{extract_prompt}
use demumumind_panel.Dispatch.Call.{is_cold}
use demumumind_panel.Dispatch.Call.{read_cache}
use demumumind_panel.Dispatch.Call.{request}
use demumumind_panel.Dispatch.Chat.{is_cacheable}
use demumumind_panel.Dispatch.Request.{do_request}
use demumumind_panel.Dispatch.Request.{settle}
use demumumind_panel.Guardrails.{check_rules}
use demumumind_panel.Guardrails.{validate_input}
use demumumind_panel.Json.{is_null}
use demumumind_panel.Text.{contains}
use demumumind_panel.Text.{join}
use demumumind_panel.Text.{prefix_of}
use demumumind_panel.Translate.{normalize_protocol}
use demumumind_panel.Translate.Route.{translate_request}
use demumumind_panel.Dispatch.Call.{find_model}
use demumumind_panel.Dispatch.Call.{◌>>=◌}
use demumumind_panel.Dispatch.Prompt.{prompt_of}
use demumumind_panel.Json.{get_or}
use demumumind_panel.Json.{to_list}
use demumumind_panel.Manager.{init}
use demumumind_panel.Manager.{kind}
use demumumind_panel.Manager.Resolve.{build_resolved}
use demumumind_panel.Manager.Resolve.{explicit}
use demumumind_panel.Manager.Resolve.{is_usable}
use demumumind_panel.Manager.Resolve.{resolve}
use demumumind_panel.Manager.Resolve.{target_of}
use demumumind_panel.Translate.Values.{as_dict}
use demumumind_panel.Translate.Values.{iterate_of}
use demumumind_panel.Translate.Values.{traverse}
use demumumind_panel.Shared.{String, ◌≡◌, refl, ap, true, false, Option, none, some, arith, length}
use demumumind_panel.Json.{Value, dict}
use demumumind_panel.Errors.{Result, ok}
use demumumind_panel.Manager.Keys.{active_keys}
use demumumind_panel.Dispatch.Samples.{answer, setup, panel, chat_of}
use demumumind_panel.Dispatch.Call.{Panel}
use demumumind_panel.Guardrails.{validate_input}
use demumumind_panel.Manager.{ResolvedModel}
use demumumind_panel.Manager.Resolve.{resolve}
use demumumind_panel.Dispatch.Prompt.{prompt_of}
use demumumind_panel.Dispatch.Call.{find_model}
use demumumind_panel.Dispatch.Call.Runs.{Runs}
use demumumind_panel.Dispatch.Chat.{is_cacheable}
use demumumind_panel.Dispatch.Chat.{chat_completion}
use demumumind_panel.Shared.Dict.{lookup}
use demumumind_panel.Text.{nonempty}
use demumumind_panel.Manager.{present}
use demumumind_panel.Manager.Keys.{primary}
use demumumind_panel.Json.{null, list, nil, cons, end, field}
use demumumind_panel.Dispatch.Samples.{message}
use demumumind_panel.Dispatch.Call.{Chat}
use demumumind_panel.Dispatch.Chat.Unread.{chat_completion_unread}

abbrev asking : String → Chat
asking text = record (chat_of "") {
  body = field "contents" (list (cons (message "user" text) nil)) end;
}

abbrev after : Panel
after = (chat_completion setup (asking "one") panel).1

answered : (chat_completion setup (asking "one") panel).0 ≡ some (ok (dict answer))
unfolding chat_completion kind resolve find_model lookup get_or traverse target_of iterate_of
    as_dict explicit prompt_of is_usable init nonempty ◌>>=◌ to_list build_resolved validate_input
    extract_prompt contains translate_request settle prefix_of check_rules is_cacheable read_cache
    is_null request do_request get Cache.get join is_cold normalize_protocol get_cached count_of
    pick_key is_auth has_hint pick classify should_retry try_once present nth is_ready send primary
    find_ready active_keys contains_any cool_down decoded attribute_get tokens_from set_cached
    start_of validate_output two_counts set answer_text write_cache get_of choice_content record_row
    first_of record_db_usage translate_response
answered = refl

abbrev resolved : ResolvedModel
resolved = record {
  user_model_id = "gpt";
  internal_model = "gpt-4";
  provider_id = "p";
  provider_name = "acme";
  base_url = "http://x";
  protocol = "openai";
  api_key = some "a";
  model_id = some "m";
  pricing = none;
  is_free = false;
  limits = none;
  kind = "chat";
}

found : Runs (find_model setup (asking "one")) panel resolved panel
unfolding find_model resolve is_free get_or truthy target_of explicit get Cache.get nonempty
    build_resolved pricing is_usable kind init lookup limits
found = refl

found_after : Runs (find_model setup (asking "two")) after resolved after
unfolding chat_completion kind resolve find_model lookup get_or traverse target_of iterate_of
    as_dict explicit prompt_of is_usable init nonempty ◌>>=◌ to_list build_resolved validate_input
    extract_prompt contains translate_request settle prefix_of check_rules is_cacheable read_cache
    is_null request do_request get Cache.get join is_cold normalize_protocol get_cached count_of
    pick_key is_auth has_hint pick classify should_retry try_once present nth is_ready send primary
    find_ready active_keys contains_any cool_down decoded attribute_get tokens_from set_cached
    start_of validate_output two_counts set answer_text write_cache get_of choice_content record_row
    first_of record_db_usage translate_response limits insert pricing is_free mark_key_rate_limited
found_after = refl

sent_after : length after.world.sent ≡ 2
unfolding chat_completion kind resolve find_model lookup get_or traverse target_of iterate_of
    as_dict explicit prompt_of is_usable init nonempty ◌>>=◌ to_list build_resolved validate_input
    extract_prompt contains translate_request settle prefix_of check_rules is_cacheable read_cache
    is_null request do_request get Cache.get join is_cold normalize_protocol get_cached count_of
    pick_key is_auth has_hint pick classify should_retry try_once present nth is_ready send primary
    find_ready active_keys contains_any cool_down decoded attribute_get tokens_from set_cached
    start_of validate_output two_counts set answer_text write_cache get_of choice_content record_row
    first_of record_db_usage translate_response
sent_after = refl

bare : (text : String) → get "messages" (asking text).body ≡ null
unfolding get
bare text = refl

no_temperature : (text : String) → get "temperature" (asking text).body ≡ null
unfolding get
no_temperature text = refl

whole : (text : String) → truthy (get "stream" (asking text).body) ≡ false
unfolding get truthy
whole text = refl

same_tools : get "tools" (asking "two").body ≡ get "tools" (asking "one").body
unfolding get
same_tools = refl

chat_completion_unread_example :
    (q' : Panel) × Runs (chat_completion setup (asking "two")) after (dict answer) q'
    × (q'.world.sent ≡ after.world.sent)
    × (q'.hit ≡ true)
chat_completion_unread_example =
    chat_completion_unread setup (asking "one") (asking "two") resolved resolved panel refl refl
      (bare "one") (bare "two") (no_temperature "one") (no_temperature "two") (whole "one")
      (whole "two") same_tools (record { distinct = tt; bounded = omega arith; room = omega arith })
      (λ i j. omega arith) refl found refl found_after refl (rw sent_after (omega arith))
      (ap (λ (r : Option (Result Value)). (r, after)) answered)
