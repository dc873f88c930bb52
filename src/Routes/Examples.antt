-- ===== src/Routes/Examples.antt =====
-- Requests to the sample panel: by an unknown key, for a stream, and for a model that is not there.
use demumumind_panel.Dispatch.{extract_prompt}
use demumumind_panel.Dispatch.Call.{temperature_of}
use demumumind_panel.Text.{or_text}
use demumumind_panel.Text.{prefix_of}
use demumumind_panel.Cache.Key as Key
use demumumind_panel.Cache.{set}
use demumumind_panel.Cache.Key.{key}
use demumumind_panel.Cache.Key.{set_stream}
use demumumind_panel.Cache.Key.{stream_key}
use demumumind_panel.Dispatch.Call.{record_row}
use demumumind_panel.Dispatch.StreamUsage.{join_bytes, extract_stream_usage}
use demumumind_panel.Dispatch.StreamUsage.{stream_tokens}
use demumumind_panel.Dispatch.Usage.{record_db_usage}
use demumumind_panel.Manager.Keys.{count_of}
use demumumind_panel.Manager.Keys.{find_ready}
use demumumind_panel.Manager.Keys.{is_ready}
use demumumind_panel.Manager.Keys.{pick_key}
use demumumind_panel.Shared.Dict.{insert}
use demumumind_panel.Text.{drop_chars}
use demumumind_panel.Text.{join}
use demumumind_panel.Cache as Cache
use demumumind_panel.Manager.Keys.{primary}
use demumumind_panel.Text.{nonempty}
use demumumind_panel.Manager.{present}
use demumumind_panel.Shared.Dict.{lookup}
use demumumind_panel.Text.{contains}
use demumumind_panel.Cache.Key.{get_stream}
use demumumind_panel.Dispatch.Call.{find_model}
use demumumind_panel.Dispatch.Call.{is_cold}
use demumumind_panel.Dispatch.Call.{read_cache}
use demumumind_panel.Dispatch.Call.{write_cache}
use demumumind_panel.Dispatch.Prompt.{prompt_of}
use demumumind_panel.Dispatch.Stream.{chat_completion_stream}
use demumumind_panel.Dispatch.Stream.{stream_of}
use demumumind_panel.Json.{is_null}
use demumumind_panel.Json.{to_list}
use demumumind_panel.Translate.{normalize_protocol}
use demumumind_panel.Translate.Route.{translate_request}
use demumumind_panel.Translate.Values.{as_dict}
use demumumind_panel.Translate.Values.{iterate_of}
use demumumind_panel.Translate.Values.{traverse}
use demumumind_panel.Dispatch.Call.{◌>>=◌}
use demumumind_panel.Manager.{init}
use demumumind_panel.Manager.Resolve.{build_resolved}
use demumumind_panel.Manager.Resolve.{explicit}
use demumumind_panel.Manager.Resolve.{is_usable}
use demumumind_panel.Manager.Resolve.{target_of}
use demumumind_panel.Routes.{chat_of}
use demumumind_panel.Routes.{respond}
use demumumind_panel.Auth.{bearer_token}
use demumumind_panel.Auth.{hash_key}
use demumumind_panel.Auth.{or_key}
use demumumind_panel.Auth.{raw_key}
use demumumind_panel.Shared.{
  ◌+◌, ◌-◌, ◌≤◌, String, ◌≡◌, refl, ap, true, false, Option, none, some, List, [], ◌∷◌, arith,
  length,
}
use demumumind_panel.Json.{null, field}
use demumumind_panel.Errors.{Result, ok, raise, handle}
use demumumind_panel.Auth.{client_key_hash, is_panel_authorized}
use demumumind_panel.Manager.Resolve.{resolve}
use demumumind_panel.Manager.Keys.{active_keys}
use demumumind_panel.Translate.Values.{to_str}
use demumumind_panel.Dispatch.Samples as Samples
use demumumind_panel.Dispatch.Samples.{codec, manager, setup, panel}
use demumumind_panel.Dispatch.Call.{Panel}
use demumumind_panel.Dispatch.Stream.{resolve_stream_cache}
use demumumind_panel.Dispatch.Stream.Quiet.{traces}
use demumumind_panel.Routes.{
  Arrival, event_stream, failure, require_client_key, chat_completions, images_generations,
  anthropic_messages, gemini_generate_content,
}
use demumumind_panel.Routes.Nulls.{drop_nulls}
use demumumind_panel.Routes.Nulls.Leaves.{leaves}
use demumumind_panel.Routes.Nulls.Laws.{is_clean, drop_nulls_clean}
use demumumind_panel.Routes.Laws.{refusal, turned_away}
use demumumind_panel.Routes.Streamed.{chat, cached_stream, missing, missing_model}
use demumumind_panel.Routes.Ends.{Answered, every_request-Answered}

abbrev arrival : String → String → Arrival
arrival key model = record {
  request = record { headers = ("x-api-key", key) ∷ []; query_params = [] };
  request_id = "r";
  model = model;
  stream = true;
  dump = field "temperature" null (Samples.chat_of "hello").body;
}

abbrev hashes : List String
hashes = "t" ∷ []

abbrev after : Panel
after = (chat_completions setup hashes (arrival "t" "gpt") panel).1

unknown :
    client_key_hash setup.digests.hmac_sha256 setup.panel_key hashes (arrival "x" "gpt").request
    ≡ none
unfolding client_key_hash hash_key or_key present lookup raw_key
unknown = refl

unauthorized : is_panel_authorized setup.panel_key (arrival "x" "gpt").request ≡ ok false
unfolding is_panel_authorized bearer_token lookup
unauthorized = refl

turned_away_example :
    ((refusal setup hashes (arrival "x" "gpt")).http_status ≡ 401)
    × (chat_completions setup hashes (arrival "x" "gpt") panel
        ≡ (some (failure (refusal setup hashes (arrival "x" "gpt"))), panel))
    × (images_generations setup hashes (arrival "x" "gpt") panel
        ≡ (some (failure (refusal setup hashes (arrival "x" "gpt"))), panel))
    × (anthropic_messages setup hashes (arrival "x" "gpt") panel
        ≡ (some (failure (refusal setup hashes (arrival "x" "gpt"))), panel))
    × (gemini_generate_content setup hashes (arrival "x" "gpt") panel
        ≡ (some (failure (refusal setup hashes (arrival "x" "gpt"))), panel))
turned_away_example = turned_away setup hashes (arrival "x" "gpt") panel unknown unauthorized

two_keys : (id : String) → length (active_keys id manager) ≤ 2
unfolding active_keys lookup primary present nonempty
two_keys id = grind arith

every_request-Answered_example :
    Answered (1 + (2 - 1)) panel (chat_completions setup hashes (arrival "t" "gpt") panel)
    × Answered (1 + (2 - 1)) panel (images_generations setup hashes (arrival "t" "gpt") panel)
    × Answered (1 + (2 - 1)) panel (anthropic_messages setup hashes (arrival "t" "gpt") panel)
    × Answered (1 + (2 - 1)) panel (gemini_generate_content setup hashes (arrival "t" "gpt") panel)
every_request-Answered_example =
    every_request-Answered setup 2 hashes (arrival "t" "gpt") panel two_keys

known : require_client_key setup hashes (arrival "t" "gpt") ≡ ok "t"
unfolding require_client_key client_key_hash hash_key or_key raw_key present lookup
known = refl

cached :
    (resolve_stream_cache setup (chat setup hashes (arrival "t" "gpt") "t") after).0
    ≡ some (ok (some "1�"))
unfolding join_bytes chat_completions ◌>>=◌ require_client_key present chat_of respond
    client_key_hash lookup resolve_stream_cache hash_key target_of build_resolved init resolve
    or_key is_usable raw_key Key.raw_key Key.tenant explicit is_cold find_model write_cache as_dict
    normalize_protocol stream_of translate_request chat_completion_stream prompt_of get_stream
    Cache.get read_cache iterate_of drop_nulls to_list is_null traverse drop_chars pick_key
    extract_stream_usage record_db_usage is_ready count_of find_ready key active_keys set_stream set
    stream_key stream_tokens join insert primary record_row temperature_of or_text prefix_of
    extract_prompt
cached = refl

known_elsewhere : require_client_key setup hashes (arrival "t" "none") ≡ ok "t"
unfolding require_client_key present or_key client_key_hash hash_key raw_key lookup
known_elsewhere = refl

not_there : resolve (to_str codec) "none" (some "t") manager ≡ ok none
unfolding resolve target_of contains lookup explicit init nonempty to_str
not_there = refl

missing_model_example :
    ((handle (some "r") (missing setup hashes (arrival "t" "none"))).http_status ≡ 404)
    × (chat_completions setup hashes (arrival "t" "none") panel
        ≡ (some (event_stream (raise (missing setup hashes (arrival "t" "none"))) none), panel))
missing_model_example =
    missing_model setup hashes (arrival "t" "none") "t" panel known_elsewhere not_there

drop_nulls_clean_example :
    (is_clean (drop_nulls (arrival "t" "gpt").dump) ≡ true)
    × (leaves (drop_nulls (arrival "t" "gpt").dump) ≡ leaves (arrival "t" "gpt").dump)
    × (drop_nulls (drop_nulls (arrival "t" "gpt").dump) ≡ drop_nulls (arrival "t" "gpt").dump)
drop_nulls_clean_example = drop_nulls_clean (arrival "t" "gpt").dump

cached_stream_example :
    (chat_completions setup hashes (arrival "t" "gpt") after ≡ (
      some (
          event_stream
            (ok (record { chunks = (49 ∷ 239 ∷ 191 ∷ 189 ∷ []) ∷ []; result = ok tt }))
            (some "hit")),
      (resolve_stream_cache setup (chat setup hashes (arrival "t" "gpt") "t") after).1,
    ))
    × (traces (resolve_stream_cache setup (chat setup hashes (arrival "t" "gpt") "t") after).1
        ≡ traces after)
cached_stream_example =
    cached_stream setup hashes (arrival "t" "gpt") "t" "1�" after
      (resolve_stream_cache setup (chat setup hashes (arrival "t" "gpt") "t") after).1 refl known
      (ap
        (λ (r : Option (Result (Option String))).
          (r, (resolve_stream_cache setup (chat setup hashes (arrival "t" "gpt") "t") after).1))
        cached)
