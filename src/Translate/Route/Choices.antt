-- ===== src/Translate/Route/Choices.antt =====
-- The answers that `translate_response` of app/services/translate.py makes for the clients of
-- Anthropic and Gemini have no choices.
use demumumind_panel.Shared.{
  String, ◌≡◌, refl, ◌∙◌, false, List, none, ◌==◌, Bool-cases, inl, inr, ◌⊎◌, if◌then◌else◌,
}
use demumumind_panel.Text.{nonempty}
use demumumind_panel.Json.{
  Value, null, bool, int, float, str, list, dict, Fields, end, field, get?, get, set, is_null,
  truthy, get_or, of_list,
}
use demumumind_panel.Json.Laws.{get?-set_ne}
use demumumind_panel.Errors.{Result, ok, raise, ◌>>=◌}
use demumumind_panel.Translate.Values.{Codec, iterate_of, copy, set_text, iterate}
use demumumind_panel.Translate.Anthropic.{
  openai_to_anthropic, set_tools, set_stop, anthropic_messages, system_text,
}
use demumumind_panel.Translate.Gemini.{generation_config, openai_to_gemini, instruction, set_dict}
use demumumind_panel.Translate.{normalize_protocol}
use demumumind_panel.Translate.Route.{from_openai, translate_response}

abbrev pub Bare : Fields → Type 0
Bare d = get? "choices" d ≡ none

-- what returns, if it returns, has no choices
abbrev pub NoChoices : Result Fields → Type 0
NoChoices (ok d) = Bare d
NoChoices (raise e) = Unit {0}

bind-NoChoices :
    {A : Type 0} (r : Result A) (f : A → Result Fields)
    → ((a : A) → NoChoices (f a))
    → NoChoices (r >>= f)
bind-NoChoices (ok a) f h = h a
bind-NoChoices (raise e) f h = tt

then-NoChoices :
    (r : Result Fields) (f : Fields → Result Fields)
    → NoChoices r
    → ((d : Fields) → Bare d → NoChoices (f d))
    → NoChoices (r >>= f)
then-NoChoices (ok d) f bare h = h d bare
then-NoChoices (raise e) f bare h = tt

set-Bare :
    (k : String) (v : Value) (d : Fields) → (k == "choices") ≡ false → Bare d → Bare (set k v d)
set-Bare k v d apart bare = get?-set_ne k "choices" v d apart ∙ bare

copy-Bare :
    (k j : String) (body d : Fields) → (j == "choices") ≡ false → Bare d → Bare (copy k j body d)
unfolding copy
copy-Bare k j body d apart bare = elim (Bool-cases (is_null (get k body))) [
  | inl nothing ↦ rw nothing bare
  | inr some_value ↦ rw some_value (set-Bare j (get k body) d apart bare)
]

set_text-Bare :
    (j s : String) (d : Fields) → (j == "choices") ≡ false → Bare d → Bare (set_text j s d)
unfolding set_text
set_text-Bare j s d apart bare = elim (Bool-cases (nonempty s)) [
  | inl full ↦ rw full (set-Bare j (str s) d apart bare)
  | inr empty ↦ rw empty bare
]

set_stop-Bare : (v : Value) (d : Fields) → Bare d → Bare (set_stop v d)
unfolding set_stop
set_stop-Bare null d bare = bare
set_stop-Bare (bool b) d bare = bare
set_stop-Bare (int n) d bare = bare
set_stop-Bare (float x) d bare = bare
set_stop-Bare (str s) d bare = set-Bare "stop_sequences" _ d refl bare
set_stop-Bare (list xs) d bare = set-Bare "stop_sequences" _ d refl bare
set_stop-Bare (dict e) d bare = bare

set_tools-NoChoices :
    (convert : List Fields → List Value) (body d : Fields)
    → Bare d
    → NoChoices (set_tools convert body d)
unfolding set_tools
set_tools-NoChoices convert body d bare = elim (Bool-cases (truthy (get "tools" body))) [
  | inl has_tools ↦
      rw has_tools
        (bind-NoChoices (iterate (get "tools" body)) _ (λ tools. set-Bare "tools" _ d refl bare))
  | inr no_tools ↦ rw no_tools bare
]

set_dict-Bare :
    (k : String) (e d : Fields) → (k == "choices") ≡ false → Bare d → Bare (set_dict k e d)
unfolding set_dict
set_dict-Bare k end d apart bare = bare
set_dict-Bare k (field j v e) d apart bare = set-Bare k _ d apart bare

instruction-Bare : (s : String) (d : Fields) → Bare d → Bare (instruction s d)
unfolding instruction
instruction-Bare s d bare = elim (Bool-cases (nonempty s)) [
  | inl full ↦ rw full (set-Bare "systemInstruction" _ d refl bare)
  | inr empty ↦ rw empty bare
]

copied-Bare :
    (body d : Fields)
    → Bare d
    → Bare (copy "top_p" "top_p" body (copy "temperature" "temperature" body d))
copied-Bare body d bare =
    copy-Bare "top_p" "top_p" body _ refl (copy-Bare "temperature" "temperature" body d refl bare)

openai_to_anthropic-NoChoices : (c : Codec) (body : Fields) → NoChoices (openai_to_anthropic c body)
unfolding openai_to_anthropic get?
openai_to_anthropic-NoChoices c body = bind-NoChoices (iterate_of "messages" body) _ (λ messages.
    bind-NoChoices (system_text c messages) _ (λ system.
      bind-NoChoices (anthropic_messages c messages) _ (λ converted.
        then-NoChoices (set_tools _ body _) _
          (set_tools-NoChoices _ body _ (
            set_stop-Bare (get "stop" body) _
              (copied-Bare body _ (set_text-Bare "system" system _ refl refl))))
          (λ d bare.
            copy-Bare "stream" "stream" body _ refl
              (copy-Bare "tool_choice" "tool_choice" body d refl bare)))))

abbrev gemini_start : Fields → List Value → Fields
gemini_start body contents =
    field "model" (get_or "model" (str "") body) (field "contents" (list (of_list contents)) end)

openai_to_gemini-NoChoices : (c : Codec) (body : Fields) → NoChoices (openai_to_gemini c body)
unfolding openai_to_gemini get?
openai_to_gemini-NoChoices c body = bind-NoChoices (iterate_of "messages" body) _ (λ messages.
    bind-NoChoices _ _ (λ contents. bind-NoChoices (system_text c messages) _ (λ system.
      then-NoChoices (set_tools _ body _) _
        (set_tools-NoChoices _ body _ (
          set_dict-Bare "generationConfig" (generation_config body)
            (instruction system (gemini_start body contents)) refl
            (instruction-Bare system (gemini_start body contents) refl)))
        (λ d bare. copy-Bare "stream" "stream" body d refl bare))))

-- the protocols of clients whose answers are no answers of OpenAI
abbrev pub Foreign : String → Type 0
Foreign dst = (dst ≡ "anthropic") ⊎ (dst ≡ "gemini")

from_openai-NoChoices :
    (c : Codec) (dst : String) (canonical : Fields)
    → Foreign dst
    → NoChoices (from_openai c dst canonical)
unfolding from_openai
from_openai-NoChoices c dst canonical (inl anthropic) =
    rw anthropic (openai_to_anthropic-NoChoices c canonical)
from_openai-NoChoices c dst canonical (inr gemini) =
    rw gemini (openai_to_gemini-NoChoices c canonical)

not_openai : (dst : String) → Foreign dst → (dst == "openai") ≡ false
not_openai dst (inl anthropic) = rw anthropic refl
not_openai dst (inr gemini) = rw gemini refl

pub translate_response-NoChoices :
    (c : Codec) (protocol_from protocol_to : String) (body : Fields)
    → Foreign (normalize_protocol protocol_to)
    → (normalize_protocol protocol_from == normalize_protocol protocol_to) ≡ false
    → NoChoices (translate_response c protocol_from protocol_to body)
unfolding translate_response
translate_response-NoChoices c protocol_from protocol_to body foreign apart =
    rw (apart, not_openai (normalize_protocol protocol_to) foreign, if◌then◌else◌)
      (bind-NoChoices _ _ (λ canonical. from_openai-NoChoices c _ canonical foreign))
