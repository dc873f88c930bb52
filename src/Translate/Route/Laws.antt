-- ===== src/Translate/Route/Laws.antt =====
-- What `translate_request` and `translate_response` make of a body.
use demumumind_panel.Shared.{
  String, ◌≡◌, refl, false, some, ◌==◌, Bool-cases, inl, inr, if◌then◌else◌,
}
use demumumind_panel.Json.{Value, Fields, str, get?, set, get, get_or}
use demumumind_panel.Json.Laws.{get?-set_self, get-set_ne, get_or-set_ne}
use demumumind_panel.Errors.{Result, ok, raise, ◌>>=◌}
use demumumind_panel.Translate.Values.{Codec, iterate_of, copy}
use demumumind_panel.Translate.Anthropic.{openai_to_anthropic, set_tools}
use demumumind_panel.Translate.Gemini.{openai_to_gemini}
use demumumind_panel.Translate.{normalize_protocol}
use demumumind_panel.Translate.Route.{
  convert_request, translate_request, translate_response, from_openai,
}

set_model :
    (r : Result Fields) (model : String) {out : Fields}
    → (r >>= λ d. ok (set "model" (str model) d)) ≡ ok out
    → get? "model" out ≡ some (str model)
set_model (raise e) model h = cc
set_model (ok d) model {out} h =
    let e : set "model" (str model) d ≡ out = cc in rw (← e) (get?-set_self "model" (str model) d)

-- Between any two protocols, a request that `translate_request` returns names the model of the
-- provider and not the client's alias.
pub translate_request-model :
    (c : Codec) (protocol_from protocol_to model : String) (body : Fields) {out : Fields}
    → translate_request c protocol_from protocol_to body model ≡ ok out
    → get? "model" out ≡ some (str model)
unfolding translate_request
translate_request-model c protocol_from protocol_to model body {out} h =
    elim (Bool-cases (normalize_protocol protocol_from == normalize_protocol protocol_to)) [
      | inl same ↦ set_model (ok body) model (rw (same, if◌then◌else◌) at h)
      | inr other ↦
          set_model
            (convert_request c (normalize_protocol protocol_from) (normalize_protocol protocol_to)
              body)
            model (rw (other, if◌then◌else◌) at h)
    ]

-- The keys that the request translations read are other keys than "choices".
module _ (c : Codec) (v : Value) (d : Fields) where
  kept : (j : String) → ("choices" == j) ≡ false → get j (set "choices" v d) ≡ get j d
  kept j apart = get-set_ne "choices" j v d apart

  model_kept : get_or "model" (str "") (set "choices" v d) ≡ get_or "model" (str "") d
  model_kept = get_or-set_ne "choices" "model" v d refl (str "")

  openai_to_anthropic-choices : openai_to_anthropic c (set "choices" v d) ≡ openai_to_anthropic c d
  unfolding openai_to_anthropic iterate_of copy set_tools
  openai_to_anthropic-choices = simp (
    kept "messages" refl,
    model_kept,
    kept "max_tokens" refl,
    kept "temperature" refl,
    kept "top_p" refl,
    kept "stop" refl,
    kept "tools" refl,
    kept "tool_choice" refl,
    kept "stream" refl,
  )

  openai_to_gemini-choices : openai_to_gemini c (set "choices" v d) ≡ openai_to_gemini c d
  unfolding openai_to_gemini iterate_of copy set_tools
  openai_to_gemini-choices = simp (
    kept "messages" refl,
    model_kept,
    kept "max_tokens" refl,
    kept "temperature" refl,
    kept "top_p" refl,
    kept "tools" refl,
    kept "stream" refl,
  )

-- A provider's OpenAI answer for a client of Anthropic or Gemini: whatever its choices are put to,
-- `translate_response` returns the same, since it runs the translation of requests.
pub translate_response-choices :
    (c : Codec) (v : Value) (d : Fields)
    → (translate_response c "openai" "anthropic" (set "choices" v d)
        ≡ translate_response c "openai" "anthropic" d)
      × (translate_response c "openai" "gemini" (set "choices" v d)
          ≡ translate_response c "openai" "gemini" d)
unfolding translate_response normalize_protocol from_openai
translate_response-choices c v d =
    (openai_to_anthropic-choices c v d, openai_to_gemini-choices c v d)
