-- ===== src/Translate/Turns.antt =====
-- Chats, and their messages as OpenAI and Anthropic write them. What is proved of
-- app/services/translate.py on chats stands on these.
use demumumind_panel.Shared.{String, ◌≡◌, refl, true, List, [], ◌∷◌, ◌++◌, map, All, if◌then◌else◌}
use demumumind_panel.Text.{nonempty}
use demumumind_panel.Json.{
  Value, null, str, list, dict, nil, cons, Fields, end, field, to_list, of_list,
}
use demumumind_panel.Errors.{Result, ok}
use demumumind_panel.Translate.Values.{Codec, traverse_all, text}
use demumumind_panel.Translate.Anthropic.{message, text_part}
use demumumind_panel.Translate.OpenAi.{tool_call}

pub record Call : Type 0 where
  pub id : String
  pub name : String
  pub input : Value

pub data Turn : Type 0 where
  asked answered : String → Turn
  called : String → Call → List Call → Turn
  returned : (id result : String) → Turn

module _ (c : Codec) where
  -- json.loads reads what json.dumps wrote
  abbrev pub IsReadable : Call → Type 0
  IsReadable call =
      (nonempty (c.dumps call.input) ≡ true) × (c.loads (c.dumps call.input) ≡ ok call.input)

  abbrev pub TurnIsReadable : Turn → Type 0
  TurnIsReadable (called s x xs) = All IsReadable (x ∷ xs)
  TurnIsReadable (asked s) = Unit {0}
  TurnIsReadable (answered s) = Unit {0}
  TurnIsReadable (returned id s) = Unit {0}

  abbrev pub openai_call : Call → Value
  openai_call x = tool_call (str x.id) (str x.name) (c.dumps x.input)

  abbrev pub turn_fields : String → Call → List Call → Fields
  turn_fields s x xs = text "role" "assistant" (
      field "content" (if nonempty s then str s else null)
        (field "tool_calls" (list (of_list (map openai_call (x ∷ xs)))) end))

  -- a turn as OpenAI writes it
  abbrev pub openai_turn : Turn → Value
  openai_turn (asked s) = message (str "user") (str s)
  openai_turn (answered s) = message (str "assistant") (str s)
  openai_turn (called s x xs) = dict (turn_fields s x xs)
  openai_turn (returned id s) =
      dict (text "role" "tool" (text "tool_call_id" id (text "content" s end)))

abbrev pub use_fields : Call → Fields
use_fields x =
    text "type" "tool_use" (text "id" x.id (text "name" x.name (field "input" x.input end)))

abbrev pub use_of : Call → Value
use_of x = dict (use_fields x)

abbrev pub blocks_of : String → List Call → List Value
blocks_of s xs = (if nonempty s then text_part (str s) ∷ [] else []) ++ map use_of xs

-- a turn as Anthropic writes it
abbrev pub anthropic_turn : Turn → Value
anthropic_turn (asked s) = message (str "user") (str s)
anthropic_turn (answered s) = message (str "assistant") (str s)
anthropic_turn (called s x xs) = message (str "assistant") (list (of_list (blocks_of s (x ∷ xs))))
anthropic_turn (returned id s) = message (str "user") (
    list
      (cons (dict (text "type" "tool_result" (text "tool_use_id" id (text "content" s end)))) nil))

pub to_list-of_list : (vs : List Value) → to_list (of_list vs) ≡ vs
unfolding to_list of_list
to_list-of_list [] = refl
to_list-of_list (v ∷ vs) = rw (to_list-of_list vs)

-- A loop that makes one result of each element maps them.
pub traverse_all-map :
    {A B D : Type 0} (P : A → Type 0) (g : A → B) (h : A → D) (f : B → Result (List D))
    → ((a : A) → P a → f (g a) ≡ ok (h a ∷ []))
    → (xs : List A) → All P xs
    → traverse_all f (map g xs) ≡ ok (map h xs)
unfolding traverse_all
traverse_all-map P g h f one [] all = refl
traverse_all-map P g h f one (x ∷ xs) all = rw (one x all.0, traverse_all-map P g h f one xs all.1)

-- the body of a request with a system prompt, as OpenAI writes it
abbrev pub openai_body : Codec → (model system : String) → List Turn → Value → Fields
openai_body c model system ts max_tokens = text "model" model (
    field "messages" (list (of_list (message (str "system") (str system) ∷ map (openai_turn c) ts)))
      (field "max_tokens" max_tokens end))

-- the same as Anthropic writes it
abbrev pub anthropic_body : (model system : String) → List Turn → Value → Fields
anthropic_body model system ts max_tokens = text "model" model (
    field "messages" (list (of_list (map anthropic_turn ts)))
      (field "max_tokens" max_tokens (text "system" system end)))
