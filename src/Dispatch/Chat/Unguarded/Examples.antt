-- ===== src/Dispatch/Chat/Unguarded/Examples.antt =====
-- A client of Anthropic on the sample panel, whose rule blocks the word "secret".
use demumumind_panel.Shared.{◌≡◌, refl, false, none, some, [], ◌==◌, inl}
use demumumind_panel.Shared.Dict.{lookup}
use demumumind_panel.Text.{contains, join, nonempty, prefix_of}
use demumumind_panel.Json.{get, get_or, to_list, truthy}
use demumumind_panel.Errors.{ok}
use demumumind_panel.Guardrails.{validate_input, check_rules}
use demumumind_panel.Manager.{ResolvedModel, init, is_free, kind, limits, pricing}
use demumumind_panel.Manager.Resolve.{build_resolved, explicit, is_usable, resolve, target_of}
use demumumind_panel.Translate.{normalize_protocol}
use demumumind_panel.Translate.Values.{as_dict, iterate_of, traverse}
use demumumind_panel.Dispatch.{extract_prompt}
use demumumind_panel.Dispatch.Prompt.{prompt_of}
use demumumind_panel.Dispatch.Samples.{setup, panel, chat_of, codec, guardrail}
use demumumind_panel.Dispatch.Call.{Chat, find_model}
use demumumind_panel.Dispatch.Call.Runs.{Runs}
use demumumind_panel.Dispatch.Chat.{chat_completion}
use demumumind_panel.Dispatch.Chat.Unguarded.{chat_completion_unguarded}

abbrev call : Chat
call = record (chat_of "hello") { protocol = "anthropic" }

abbrev resolved : ResolvedModel
resolved = record {
  user_model_id = "gpt";
  internal_model = "gpt-4";
  provider_id = "p";
  provider_name = "acme";
  base_url = "http://x";
  protocol = "openai";
  api_key = some "a";
  model_id = some "m";
  pricing = none;
  is_free = false;
  limits = none;
  kind = "chat";
}

found : Runs (find_model setup call) panel resolved panel
unfolding find_model resolve get limits get_or truthy target_of lookup is_free pricing
    build_resolved kind is_usable explicit init nonempty
found = refl

is_anthropic : normalize_protocol "anthropic" ≡ "anthropic"
unfolding normalize_protocol
is_anthropic = refl

apart : (normalize_protocol (normalize_protocol "openai") == normalize_protocol "anthropic") ≡ false
unfolding normalize_protocol
apart = refl

asked : prompt_of codec call.body ≡ ok "hello"
unfolding prompt_of iterate_of truthy get to_list traverse as_dict extract_prompt join prefix_of
asked = refl

passed : validate_input guardrail (some "hello") ≡ ok tt
unfolding validate_input check_rules contains nonempty
passed = refl

chat_completion_unguarded_example :
    chat_completion setup call panel
    ≡ chat_completion
        (record setup { guardrail = record { regex_rules = []; json_schema = none } })
        call
        panel
chat_completion_unguarded_example =
    chat_completion_unguarded setup call panel resolved "hello" (inl is_anthropic) found apart asked
      passed
