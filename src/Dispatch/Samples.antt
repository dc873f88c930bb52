-- ===== src/Dispatch/Samples.antt =====
-- A panel with one provider of two keys and one model, and calls of it, for the tests.
use demumumind_panel.Shared.{
  eqb, if◌then◌else◌, String, true, false, none, some, List, [], ◌∷◌, pos,
}
use Prim.Native.Char.{code}
use demumumind_panel.Text.{contains, join, Bytes}
use demumumind_panel.Json.{Value, str, list, dict, nil, cons, Fields, end, field}
use demumumind_panel.Errors.{ok}
use demumumind_panel.Pool.{HttpRequest, Reply, response}
use demumumind_panel.Guardrails.{GuardrailService}
use demumumind_panel.Manager.{Manager, ModelRecord, init}
use demumumind_panel.Translate.Values.{Codec}
use demumumind_panel.Dispatch.Usage.{committed}
use demumumind_panel.Dispatch.Call.{Setup, Panel, Chat, opened, broken}

abbrev pub model : ModelRecord
model = record {
  id = "m";
  provider_id = "p";
  user_model_id = "gpt";
  internal_model = "gpt-4";
  is_active = true;
  metadata = end;
}

abbrev pub manager : Manager
manager = record init {
  providers =
      (
        "p",
        record {
          id = "p";
          name = "acme";
          base_url = "http://x";
          api_key = some "a";
          protocol = "openai";
          is_default = true;
          is_active = true;
          metadata = end;
        },
      )
      ∷ [];
  models = ("gpt", model) ∷ [];
  provider_keys = ("p", "b" ∷ []) ∷ [];
}

abbrev pub message : String → String → Value
message role content = dict (field "role" (str role) (field "content" (str content) end))

abbrev pub answer : Fields
answer =
    field "choices" (list (cons (dict (field "message" (message "assistant" "hi") end)) nil)) end

-- The first request gets a 429, the second one the answer.
abbrev client : List HttpRequest → HttpRequest → Reply
client [] r = response 429 "slow down" none
client (q ∷ qs) r = response 200 "{}" (some (dict answer))

abbrev pub codec : Codec
codec = record { dumps = λ v. "{}"; loads = λ s. ok (dict answer); repr = λ v. "{}" }

abbrev pub guardrail : GuardrailService
guardrail = record {
  regex_rules =
      record {
        name = "secret";
        pattern = record { source = "secret"; search = λ s. contains s "secret" };
        action = "block";
      }
      ∷ [];
  json_schema = none;
}

-- UTF-8 on the digit 1; what is no digit 1 is replaced by U+FFFD.
abbrev pub decode : Bytes → String
decode [] = ""
decode (b ∷ bs) = join "" ((if eqb b 49 then "1" else "�") ∷ decode bs ∷ [])

abbrev pub encode : String → Bytes
encode String.[] = []
encode (String.◌∷◌ c s) = if eqb (code c) 49 then 49 ∷ encode s else 239 ∷ 191 ∷ 189 ∷ encode s

-- A provider that breaks off inside a character.
abbrev pub setup : Setup
setup = record {
  env = record { clock = λ n. 0; second = 10; client = client };
  codec = codec;
  stream_client = λ sent r. opened 200 (ok "") ((49 ∷ []) ∷ (226 ∷ []) ∷ []) (broken "ReadError");
  decode = decode;
  encode = encode;
  dumps_unicode = λ v. "{}";
  digests = record {
    sha256 = λ s. s;
    hmac_sha256 = λ k s. s;
    dumps_sorted = λ v. "";
    fixed_4 = λ v. "0.0000";
  };
  panel_key = "k";
  int_of = λ v. ok (pos 0);
  guardrail = guardrail;
  db = λ n a. committed;
  utcnow = λ n. n;
  save_image = λ n s. ok "x.png";
  image_commits = λ n. true;
}

abbrev pub panel : Panel
panel = record {
  world = record { manager = manager; sent = []; readings = 0 };
  cache = record { store = []; max_entries = 2; ttl = 300 };
  usage = [];
  images = [];
  sessions = 0;
  hit = false;
}

abbrev pub chat_of : String → Chat
chat_of prompt = record {
  request_id = "r";
  key_hash = "t";
  agent_type = "default";
  protocol = "openai";
  model = "gpt";
  body = field "messages" (list (cons (message "user" prompt) nil)) end;
}
