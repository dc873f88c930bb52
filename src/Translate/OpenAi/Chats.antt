-- ===== src/Translate/OpenAi/Chats.antt =====
-- A chat as `_anthropic_to_openai_messages` writes it.

use demumumind_panel.Shared.{
  String, ◌≡◌, refl, true, false, List, [], ◌∷◌, map, Bool-cases, inl, inr, if◌then◌else◌, ap, ◌∙◌,
  All,
}
use demumumind_panel.Text.{nonempty, join}
use demumumind_panel.Json.{
  bool, int, float, or_value, is_null, set, Value, Fields, str, null, list, dict, nil, to_list,
  of_list, get, get_or, get?, truthy,
}
use demumumind_panel.Errors.{ok}
use demumumind_panel.Translate.Values.{iterate, iterate_of, copy, Codec, is_text, dicts, chat_role}
use demumumind_panel.Translate.Content.{text_of}
use demumumind_panel.Translate.Anthropic.{message, set_tools}
use demumumind_panel.Translate.OpenAi.{
  system_message, set_stop_of, openai_messages, anthropic_to_openai, typed, tool_call_of_use,
  text_or_null, tool_result, openai_message_of_blocks, openai_message,
}
use demumumind_panel.Translate.Turns.{
  openai_body, anthropic_body, traverse_all-map, Call, Turn, asked, answered, called, returned,
  openai_call, openai_turn, use_fields, use_of, blocks_of, anthropic_turn, turn_fields,
  to_list-of_list,
}

typed-uses : (xs : List Call) → typed "tool_use" (map use_of xs) ≡ map use_fields xs
unfolding typed dicts is_text get get?
typed-uses [] = refl
typed-uses (x ∷ xs) = ap (λ (r : List Fields). use_fields x ∷ r) (typed-uses xs)

typed-texts : (xs : List Call) → typed "text" (map use_of xs) ≡ []
unfolding typed dicts is_text get get?
typed-texts [] = refl
typed-texts (x ∷ xs) = typed-texts xs

typed-uses_of_blocks :
    (s : String) (xs : List Call) → typed "tool_use" (blocks_of s xs) ≡ map use_fields xs
unfolding typed dicts is_text get get?
typed-uses_of_blocks s xs = elim (Bool-cases (nonempty s)) [
  | inl some ↦ rw some (typed-uses xs)
  | inr none ↦ rw none (typed-uses xs)
]

iterate-or : (vs : List Value) → iterate (or_value (list (of_list vs)) (list nil)) ≡ ok vs
unfolding iterate or_value truthy of_list to_list
iterate-or [] = refl
iterate-or (v ∷ vs) = rw (to_list-of_list vs)

is_null_of_truthy : (v : Value) → truthy v ≡ true → is_null v ≡ false
unfolding truthy is_null
is_null_of_truthy null h = cc
is_null_of_truthy (bool b) h = refl
is_null_of_truthy (int n) h = refl
is_null_of_truthy (float x) h = refl
is_null_of_truthy (str s) h = refl
is_null_of_truthy (list xs) h = refl
is_null_of_truthy (dict d) h = refl

All-trivial : (ts : List Turn) → All (λ t. Unit {0}) ts
All-trivial [] = tt
All-trivial (t ∷ ts) = (tt, All-trivial ts)

module _ (c : Codec) where
  calls-uses :
      (xs : List Call) → map (tool_call_of_use c) (map use_fields xs) ≡ map (openai_call c) xs
  unfolding tool_call_of_use get_or get?
  calls-uses [] = refl
  calls-uses (x ∷ xs) = ap (λ (r : List Value). openai_call c x ∷ r) (calls-uses xs)

  -- the text of a message that calls tools
  text_of-blocks :
      (s : String) (xs : List Call)
      → text_or_null (text_of c (list (of_list (map dict (typed "text" (blocks_of s xs))))))
        ≡ (if nonempty s then str s else null)
  unfolding typed dicts is_text get get? text_or_null text_of of_list to_list nonempty get_or join
  text_of-blocks String.[] xs = rw (typed-texts xs)
  text_of-blocks (String.◌∷◌ ch s) xs = rw (typed-texts xs)

  openai_message-called :
      (s : String) (x : Call) (xs : List Call)
      → openai_message_of_blocks c
          (str "assistant")
          (list (of_list (blocks_of s (x ∷ xs))))
          (blocks_of s (x ∷ xs))
        ≡ ok (dict (turn_fields c s x xs) ∷ [])
  unfolding openai_message_of_blocks is_text truthy of_list tool_call_of_use get_or get?
  openai_message-called s x xs =
      rw (text_of-blocks s (x ∷ xs), typed-uses_of_blocks s (x ∷ xs), calls-uses xs)

  openai_message-list :
      (role : Value) (vs : List Value)
      → openai_message c (message role (list (of_list vs)))
        ≡ openai_message_of_blocks c role (list (of_list vs)) vs
  unfolding openai_message get get?
  openai_message-list role vs = rw (to_list-of_list vs)

  pub openai_message-turn :
      (t : Turn) → openai_message c (anthropic_turn t) ≡ ok (openai_turn c t ∷ [])
  unfolding openai_message get get? get_or is_text text_of chat_role openai_message_of_blocks
      tool_result typed dicts truthy of_list to_list
  openai_message-turn (asked s) = refl
  openai_message-turn (answered s) = refl
  openai_message-turn (called s x xs) =
      openai_message-list (str "assistant") (blocks_of s (x ∷ xs)) ∙ openai_message-called s x xs
  openai_message-turn (returned id s) = refl

  pub openai_messages-chat :
      (ts : List Turn) → openai_messages c (map anthropic_turn ts) ≡ ok (map (openai_turn c) ts)
  unfolding openai_messages
  openai_messages-chat ts =
      traverse_all-map (λ t. Unit {0}) anthropic_turn (openai_turn c) (openai_message c)
        (λ t h. openai_message-turn t) ts (All-trivial ts)

  -- An Anthropic request with a system prompt, in the form of OpenAI.
  pub anthropic_to_openai-chat :
      (model s : String) (ts : List Turn) (max_tokens : Value)
      → nonempty s ≡ true
      → truthy max_tokens ≡ true
      → anthropic_to_openai c (anthropic_body model s ts max_tokens)
        ≡ ok (openai_body c model s ts max_tokens)
  unfolding anthropic_to_openai iterate_of iterate get get_or get? or_value of_list to_list copy
      set_tools set system_message set_stop_of text_of
  anthropic_to_openai-chat model s ts max_tokens some positive =
      rw (iterate-or (map anthropic_turn ts))
        (rw (openai_messages-chat ts, some, is_null_of_truthy max_tokens positive))
