-- ===== src/Pool/Examples.antt =====
-- The request to an Anthropic provider.
use demumumind_panel.Shared.{◌≡◌, refl, none, some, [], ◌∷◌}
use demumumind_panel.Shared.Dict.{lookup, insert, has}
use demumumind_panel.Text.{◌+s◌, nonempty, or_text, upper, lstrip_char, rstrip_char}
use demumumind_panel.Pool.{Endpoint, HttpRequest, protocol_header, auth_headers, request, url_of}

abbrev endpoint : Endpoint
endpoint = record {
  id = "p";
  name = "claude";
  base_url = "http://x/";
  api_key = some "k";
  protocol = "anthropic";
}

abbrev sent : HttpRequest
sent = record {
  method = "POST";
  url = "http://x/v1/messages";
  headers = ("x-api-key", "k") ∷ ("anthropic-version", "2023-06-01") ∷ ("X-Request-ID", "r") ∷ [];
  json_body = none;
  timeout = none;
}

request_run : request endpoint "/v1/messages" "post" none "r" none ≡ sent
unfolding request url_of rstrip_char lstrip_char upper insert has lookup auth_headers or_text
    nonempty protocol_header ◌+s◌
request_run = refl
