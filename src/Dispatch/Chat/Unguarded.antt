-- ===== src/Dispatch/Chat/Unguarded.antt =====
-- Which answers of `chat_completion` in app/services/dispatch.py no rule of the guardrails blocks.
mod Examples
use demumumind_panel.Shared.{
  ℕ, String, ◌≡◌, refl, ap, ◌∙◌, sym, Bool, true, false, Option, none, some, [], ◌==◌, Bool-cases,
  inl, inr, if◌then◌else◌, arith,
}
use demumumind_panel.Text.{prefix_of, join, nonempty}
use demumumind_panel.Json.{Value, Fields, null, get?, get, get_or, or_value, truthy, dict}
use demumumind_panel.Errors.{Result, ok, raise}
use demumumind_panel.Guardrails as Guardrails
use demumumind_panel.Guardrails.{
  GuardrailService, validate_input, validate_output, check_regex, check_rules,
}
use demumumind_panel.Cache.Key.{set_cached}
use demumumind_panel.Manager.{ResolvedModel}
use demumumind_panel.Translate.{normalize_protocol}
use demumumind_panel.Translate.Values.{Codec, get_of, as_dict}
use demumumind_panel.Translate.Responses.{first_of}
use demumumind_panel.Translate.Route.{translate_response, translate_request}
use demumumind_panel.Translate.Route.Choices.{
  Bare, Foreign, NoChoices, translate_response-NoChoices,
}
use demumumind_panel.Dispatch.{extract_prompt, monotonic}
use demumumind_panel.Dispatch.Prompt.{choice_content, answer_text, prompt_of}
use demumumind_panel.Dispatch.Call.{
  Setup, Panel, Call, Chat, bound, lift, when, ◌>>=◌, find_model, request, record_row, free_row,
  read_cache, write_cache, stored, temperature_of,
}
use demumumind_panel.Dispatch.Call.Runs.{Runs}
use demumumind_panel.Dispatch.Image.{image_generation, record_image}
use demumumind_panel.Dispatch.Chat.{
  is_cacheable, hit, answered, record_answer, usage_row, ask, look_up, text_completion, by_kind,
  chat_completion,
}

-- The guardrails are given the empty text of an answer without choices.
unread :
    (codec : Codec) (g : GuardrailService) (output : Fields)
    → Bare output
    → (choice_content output ≡ ok null)
      × (validate_output g (some (answer_text codec null)) ≡ ok "")
unfolding choice_content get or_value truthy first_of get_of get_or get? answer_text extract_prompt
    validate_output check_regex prefix_of join nonempty
unread codec g output bare = (rw (bare, get) refl, refl)

ok_keeps : (r : Result Fields) {d : Fields} → NoChoices r → r ≡ ok d → Bare d
ok_keeps r h e = rw e at h

content_of : (r : Result Value) {content v : Value} → r ≡ ok v → r ≡ ok content → v ≡ content
content_of r e e2 = ground (arith, e, e2)

no_rules : (text : String) → validate_input Guardrails.init (some text) ≡ ok tt
unfolding validate_input check_regex check_rules
no_rules text = elim (Bool-cases (nonempty text)) [
  | inl full ↦ rw full refl
  | inr empty ↦ rw empty refl
]

-- two calls that answer the same and leave the same state
abbrev pub Same : {A : Type 0} → Call A → Call A → Type 0
Same m n = (p : Panel) → m p ≡ n p

bind-Same :
    {A B : Type 0} (m m' : Call A) (f f' : A → Call B)
    → Same m m'
    → ((a : A) → Same (f a) (f' a))
    → Same (m >>= f) (m' >>= f')
unfolding ◌>>=◌
bind-Same {A = A} m m' f f' start rest p = ap (bound f) (start p) ∙ by_outcome (m' p)
  where
    by_outcome : (o : Option (Result A) × Panel) → bound f o ≡ bound f' o
    by_outcome (none, q) = refl
    by_outcome (some (ok a), q) = rest a q
    by_outcome (some (raise e), q) = refl

lift-Same :
    {A B : Type 0} (r : Result A) (f f' : A → Call B)
    → ((a : A) → r ≡ ok a → Same (f a) (f' a))
    → Same (lift r >>= f) (lift r >>= f')
unfolding ◌>>=◌
lift-Same (ok a) f f' rest p = rest a refl p
lift-Same (raise e) f f' rest p = refl

-- the same panel with no rule
abbrev pub unguarded : Setup → Setup
unguarded s = record s { guardrail = Guardrails.init }

module _ (s : Setup) (c : Chat) where
  find_model-Same : Same (find_model s c) (find_model (unguarded s) c)
  unfolding find_model
  find_model-Same p = refl

  image_generation-Same :
      (d : Chat) → Same (image_generation s d) (image_generation (unguarded s) d)
  unfolding image_generation find_model request record_row free_row record_image
  image_generation-Same d p = refl

  hit-Same :
      (resolved : ResolvedModel) (cached : String)
      → Same (hit s c resolved cached) (hit (unguarded s) c resolved cached)
  unfolding hit record_row free_row
  hit-Same resolved cached p = refl

  look_up-Same : (prompt : String) → Same (look_up s c prompt) (look_up (unguarded s) c prompt)
  unfolding look_up read_cache monotonic
  look_up-Same prompt p = refl

  record_answer-Same :
      (resolved : ResolvedModel) (target : String) (answer : Fields)
      → Same
          (record_answer s c resolved target answer)
          (record_answer (unguarded s) c resolved target answer)
  unfolding record_answer record_row usage_row
  record_answer-Same resolved target answer p = refl

  abbrev cache_answer : String → Fields → Setup → Call (Unit {0})
  cache_answer prompt output u = when (is_cacheable c.body) (
      write_cache u λ now.
        set_cached u.digests u.panel_key now c.model prompt
          (temperature_of (get "temperature" c.body)) (get "tools" c.body)
          (u.dumps_unicode (dict output)) c.key_hash)

  cache_answer-Same :
      (prompt : String) (output : Fields)
      → Same (cache_answer prompt output s) (cache_answer prompt output (unguarded s))
  unfolding write_cache stored monotonic
  cache_answer-Same prompt output p = elim (Bool-cases (is_cacheable c.body)) [
    | inl cacheable ↦ rw cacheable refl
    | inr warm ↦ rw warm refl
  ]

  module _ (foreign : Foreign (normalize_protocol c.protocol)) (resolved : ResolvedModel)
      (apart : (normalize_protocol (normalize_protocol resolved.protocol)
          == normalize_protocol c.protocol)
        ≡ false) where
    answered-Same :
        (prompt : String) (r : Value × ℕ)
        → Same
            (answered s c resolved prompt (normalize_protocol resolved.protocol) r)
            (answered (unguarded s) c resolved prompt (normalize_protocol resolved.protocol) r)
    unfolding answered
    answered-Same prompt (answer, latency) =
        let target = normalize_protocol resolved.protocol in
        lift-Same (as_dict answer) _ _ (λ fields _.
          lift-Same (translate_response s.codec target c.protocol fields) _ _ (λ output e.
            let bare =
              ok_keeps (translate_response s.codec target c.protocol fields) {d = output}
                (translate_response-NoChoices s.codec target c.protocol fields foreign apart) e in
            lift-Same (choice_content output) _ _ (λ content e2.
              let (empty, passed) = unread s.codec s.guardrail output bare in
              let (_, passed') = unread s.codec Guardrails.init output bare in
              let same = content_of (choice_content output) empty e2 in
              rw (← same, passed, passed')
                (lift-Same (ok "") _ _ (λ _ _.
                  bind-Same (cache_answer prompt output s) _ _ _ (cache_answer-Same prompt output)
                    (λ _.
                      bind-Same (record_answer s c resolved target fields) _ _ _
                        (record_answer-Same resolved target fields) (λ _ p. refl)))))))

    ask-Same :
        (prompt : String) → Same (ask s c resolved prompt) (ask (unguarded s) c resolved prompt)
    unfolding ask request
    ask-Same prompt =
        lift-Same (translate_request _ _ _ _ _) _ _
          (λ translated _. bind-Same (request s _) _ _ _ (λ p. refl) (answered-Same prompt))

    by_entry-Same :
        (prompt : String) (cached : Option String)
        → Same
            (elim cached [ some v ↦ hit s c resolved v | none ↦ ask s c resolved prompt ])
            (elim cached [
              | some v ↦ hit (unguarded s) c resolved v
              | none ↦ ask (unguarded s) c resolved prompt
            ])
    by_entry-Same prompt none = ask-Same prompt
    by_entry-Same prompt (some v) = hit-Same resolved v

    text_completion-Same :
        (prompt : String)
        → prompt_of s.codec c.body ≡ ok prompt
        → validate_input s.guardrail (some prompt) ≡ ok tt
        → Same (text_completion s c resolved) (text_completion (unguarded s) c resolved)
    unfolding text_completion ◌>>=◌
    text_completion-Same prompt asked passed p =
        rw (asked, passed, no_rules prompt)
          (bind-Same (look_up s c prompt) _ _ _ (look_up-Same prompt) (by_entry-Same prompt) p)

    by_kind-Same :
        (prompt : String)
        → prompt_of s.codec c.body ≡ ok prompt
        → validate_input s.guardrail (some prompt) ≡ ok tt
        → Same (by_kind s c resolved) (by_kind (unguarded s) c resolved)
    unfolding by_kind
    by_kind-Same prompt asked passed = elim (Bool-cases (resolved.kind == "image")) [
      | inl image ↦
          rw image (lift-Same (prompt_of s.codec c.body) _ _ (λ text _. image_generation-Same _))
      | inr chat ↦ rw chat (text_completion-Same prompt asked passed)
    ]

-- A client of Anthropic or Gemini whose alias stands for a model of a provider of another protocol,
-- with a prompt that passes the rules of the guardrails: `chat_completion` answers, or raises, as it
-- does without any rule, and leaves the same panel. No rule blocks an answer of such a call.
pub chat_completion_unguarded :
    (s : Setup) (c : Chat) (p : Panel) (resolved : ResolvedModel) (prompt : String)
    → Foreign (normalize_protocol c.protocol)
    → Runs (find_model s c) p resolved p
    → (normalize_protocol (normalize_protocol resolved.protocol) == normalize_protocol c.protocol)
      ≡ false
    → prompt_of s.codec c.body ≡ ok prompt
    → validate_input s.guardrail (some prompt) ≡ ok tt
    → chat_completion s c p
      ≡ chat_completion
          (record s { guardrail = record { regex_rules = []; json_schema = none } })
          c
          p
unfolding chat_completion ◌>>=◌
chat_completion_unguarded s c p resolved prompt foreign found apart asked passed =
    let found' : Runs (find_model (unguarded s) c) p resolved p =
      sym (find_model-Same s c p) ∙ found in
    rw (found, found') (by_kind-Same s c foreign resolved apart prompt asked passed p)
