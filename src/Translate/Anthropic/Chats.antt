-- ===== src/Translate/Anthropic/Chats.antt =====
-- A chat as `_openai_to_anthropic_messages` writes it.

use demumumind_panel.Shared.{
  String, true, ◌≡◌, refl, List, [], ◌∷◌, map, All, Bool-cases, inl, inr, if◌then◌else◌,
}
use demumumind_panel.Text.{nonempty, join}
use demumumind_panel.Json.{
  or_value, is_null, set, Value, str, null, list, to_list, of_list, get, get_or, get?, truthy,
}
use demumumind_panel.Errors.{ok}
use demumumind_panel.Translate.Values.{
  iterate_of, copy, set_text, Codec, is_text, iterate, traverse, traverse_all, loads_or, chat_role,
}
use demumumind_panel.Translate.Content.{text_of, content_blocks, is_image}
use demumumind_panel.Translate.Anthropic.{
  system_part, system_text, set_stop, set_tools, openai_to_anthropic, message, text_parts, tool_use,
  calling_message, plain_message, anthropic_message, anthropic_messages,
}
use demumumind_panel.Translate.Turns.{
  Call, Turn, asked, answered, called, returned, IsReadable, TurnIsReadable, openai_call,
  openai_turn, use_of, openai_body, anthropic_body, blocks_of, turn_fields, anthropic_turn,
  to_list-of_list, traverse_all-map,
}

module _ (c : Codec) where
  loads_or-str : (s : String) → nonempty s ≡ true → loads_or c (str s) ≡ c.loads s
  unfolding loads_or truthy
  loads_or-str s h = rw (h, loads_or)

  tool_use-call : (x : Call) → IsReadable c x → tool_use c (openai_call c x) ≡ ok (use_of x)
  unfolding tool_use get_or get?
  tool_use-call x h = rw (loads_or-str (c.dumps x.input) h.0, h.1)

  traverse-calls :
      (xs : List Call)
      → All (IsReadable c) xs
      → traverse (tool_use c) (map (openai_call c) xs) ≡ ok (map use_of xs)
  unfolding traverse
  traverse-calls [] h = refl
  traverse-calls (x ∷ xs) h = rw (tool_use-call x h.0, traverse-calls xs h.1)

  plain_message-str :
      (role : Value) (s : String)
      → plain_message c role (str s) ≡ ok (message (chat_role role) (str s))
  unfolding plain_message content_blocks is_image text_of
  plain_message-str role s = elim (Bool-cases (nonempty s)) [
    | inl some ↦ rw (some, content_blocks)
    | inr none ↦ rw (none, content_blocks)
  ]

  text_of-or_null : (s : String) → text_of c (if nonempty s then str s else null) ≡ s
  unfolding text_of nonempty
  text_of-or_null String.[] = refl
  text_of-or_null (String.◌∷◌ ch s) = refl

  calling_message-turn :
      (s : String) (x : Call) (xs : List Call)
      → All (IsReadable c) (x ∷ xs)
      → calling_message c (turn_fields c s x xs)
        ≡ ok (message (str "assistant") (list (of_list (blocks_of s (x ∷ xs)))))
  unfolding calling_message get get? iterate text_parts
  calling_message-turn s x xs h =
      rw (to_list-of_list (map (openai_call c) (x ∷ xs)))
        (rw (traverse-calls (x ∷ xs) h, text_of-or_null s))

  pub anthropic_message-turn :
      (t : Turn)
      → TurnIsReadable c t
      → anthropic_message c (openai_turn c t) ≡ ok (anthropic_turn t ∷ [])
  unfolding anthropic_message get get? get_or is_text truthy of_list text_of chat_role
  anthropic_message-turn (asked s) h = rw (plain_message-str (str "user") s)
  anthropic_message-turn (answered s) h = rw (plain_message-str (str "assistant") s)
  anthropic_message-turn (called s x xs) h = rw (calling_message-turn s x xs h)
  anthropic_message-turn (returned id s) h = refl

  no_system : (ts : List Turn) → traverse_all system_part (map (openai_turn c) ts) ≡ ok []
  unfolding traverse_all system_part get get? is_text
  no_system [] = refl
  no_system (asked s ∷ ts) = rw (no_system ts)
  no_system (answered s ∷ ts) = rw (no_system ts)
  no_system (called s x xs ∷ ts) = rw (no_system ts)
  no_system (returned id s ∷ ts) = rw (no_system ts)

  system_text-chat :
      (s : String) (ts : List Turn)
      → system_text c (message (str "system") (str s) ∷ map (openai_turn c) ts) ≡ ok s
  unfolding system_text traverse_all system_part get get? is_text is_null text_of join
  system_text-chat s ts = rw (no_system ts)

  pub anthropic_messages-chat :
      (ts : List Turn)
      → All (TurnIsReadable c) ts
      → anthropic_messages c (map (openai_turn c) ts) ≡ ok (map anthropic_turn ts)
  unfolding anthropic_messages
  anthropic_messages-chat ts h =
      traverse_all-map (TurnIsReadable c) (openai_turn c) anthropic_turn (anthropic_message c)
        anthropic_message-turn ts h

  anthropic_messages-system :
      (s : String) (ts : List Turn)
      → All (TurnIsReadable c) ts
      → anthropic_messages c (message (str "system") (str s) ∷ map (openai_turn c) ts)
        ≡ ok (map anthropic_turn ts)
  unfolding anthropic_messages traverse_all anthropic_message get get? is_text
  anthropic_messages-system s ts h = rw (anthropic_messages-chat ts h)

  -- A request with a system prompt, in the form of Anthropic.
  pub openai_to_anthropic-chat :
      (model s : String) (ts : List Turn) (max_tokens : Value)
      → nonempty s ≡ true
      → truthy max_tokens ≡ true
      → All (TurnIsReadable c) ts
      → openai_to_anthropic c (openai_body c model s ts max_tokens)
        ≡ ok (anthropic_body model s ts max_tokens)
  unfolding openai_to_anthropic iterate_of iterate get get_or get? or_value truthy of_list to_list
      copy set_text set_stop set_tools is_null set
  openai_to_anthropic-chat model s ts max_tokens some positive h =
      rw (to_list-of_list (map (openai_turn c) ts))
        (rw (system_text-chat s ts, anthropic_messages-system s ts h) (rw (some, positive)))
