-- ===== src/Translate/Anthropic/Roles.antt =====
-- The roles of the messages that `_openai_to_anthropic_messages` makes.
use demumumind_panel.Shared.{
  ◌≡◌, refl, Bool, true, false, ◌||◌, ◌&&◌, List, [], ◌∷◌, ◌++◌, All, All-append, Bool-cases, inl,
  inr, if◌then◌else◌, any,
}
use demumumind_panel.Json.{Value, Fields, str, list, dict, get, get?, truthy, of_list}
use demumumind_panel.Errors.{Result, ok, raise, ◌>>=◌}
use demumumind_panel.Translate.Values.{
  Codec, as_dict, is_text, traverse, traverse_all, chat_role, iterate,
}
use demumumind_panel.Translate.Content.{text_of, content_blocks, is_image}
use demumumind_panel.Translate.Anthropic.{
  by_role, message, tool_use, content_part, text_parts, tool_message, calling_message,
  plain_message, anthropic_message, anthropic_messages,
}

-- whether a message is one of the user or of the assistant
abbrev pub speaks : Value → Bool
speaks (dict d) = is_text "user" (get "role" d) || is_text "assistant" (get "role" d)
speaks _ = false

-- What follows from a step and its continuation follows when the two together return.
returned :
    {X Y C : Type 0} {next : X → Result Y} {y : Y} (step : Result X)
    → (next_returns : (x : X) → step ≡ ok x → next x ≡ ok y → C) → step >>= next ≡ ok y
    → C
returned (raise e) from h = cc
returned (ok x) from h = from x refl h

speaks-chat_role : (role content : Value) → speaks (message (chat_role role) content) ≡ true
unfolding chat_role get get? is_text
speaks-chat_role role content =
    elim (Bool-cases (is_text "user" role || is_text "assistant" role)) [
      | inl chat ↦ rw chat chat
      | inr none ↦ rw none
    ]

speaks_of_ok :
    (role content : Value) {m : Value}
    → ok (message (chat_role role) content) ≡ ok m
    → speaks m ≡ true
speaks_of_ok role content {m} h =
    let e : message (chat_role role) content ≡ m = cc in rw (← e) (speaks-chat_role role content)

-- A loop whose every round appends what satisfies a predicate makes a list of such.
traverse_all-All :
    {A B : Type 0} (P : B → Type 0) (f : A → Result (List B))
    → ((x : A) (ys : List B) → f x ≡ ok ys → All P ys)
    → (xs : List A) (ys : List B) → traverse_all f xs ≡ ok ys
    → All P ys
unfolding traverse_all
traverse_all-All P f one [] [] h = tt
traverse_all-All P f one [] (y ∷ ys) h = cc
traverse_all-All P f one (x ∷ xs) ys h =
    returned (f x)
      (λ zs e. returned (traverse_all f xs) (λ rest e' h'.
        let q : zs ++ rest ≡ ys = cc in
        rw (← q) (All-append P zs rest (one x zs e) (traverse_all-All P f one xs rest e'))))
      h

module _ (c : Codec) where
  plain_message-speaks :
      (role content m : Value) → plain_message c role content ≡ ok m → speaks m ≡ true
  unfolding plain_message
  plain_message-speaks role content m h =
      elim (Bool-cases (any is_image (content_blocks content))) [
        | inl images ↦
            returned (traverse content_part (content_blocks content))
              (λ parts _ e. speaks_of_ok role (list (of_list parts)) e) (rw (images, any) at h)
        | inr texts ↦ speaks_of_ok role (str (text_of c content)) (rw (texts, any) at h)
      ]

  calling_message-speaks :
      (msg : Fields) (m : Value) → calling_message c msg ≡ ok m → speaks m ≡ true
  unfolding calling_message chat_role is_text
  calling_message-speaks msg m h =
      returned (iterate (get "tool_calls" msg))
        (λ calls _. returned (traverse (tool_use c) calls) (λ blocks _ e.
          speaks_of_ok (str "assistant")
            (list (of_list (text_parts (text_of c (get "content" msg)) ++ blocks))) e))
        h

  single-speaks :
      (r : Result Value) (ms : List Value)
      → ((m : Value) → r ≡ ok m → speaks m ≡ true)
      → (r >>= λ m. ok (m ∷ [])) ≡ ok ms
      → All (λ m. speaks m ≡ true) ms
  single-speaks (raise e) ms h k = cc
  single-speaks (ok m) ms h k = let e : m ∷ [] ≡ ms = cc in rw (← e) (h m refl, tt)

  ok-speaks :
      (xs ms : List Value)
      → All (λ m. speaks m ≡ true) xs
      → ok xs ≡ ok ms
      → All (λ m. speaks m ≡ true) ms
  ok-speaks xs ms h k = let e : xs ≡ ms = cc in rw (← e) h

  tool_message-speaks : (msg : Fields) → speaks (tool_message c msg) ≡ true
  unfolding tool_message get get? is_text
  tool_message-speaks msg = refl

  called_or_plain :
      (msg : Fields) (ms : List Value)
      → (if is_text "assistant" (get "role" msg) && truthy (get "tool_calls" msg)
          then (calling_message c msg >>= λ m. ok (m ∷ []))
          else (plain_message c (get "role" msg) (get "content" msg) >>= λ m. ok (m ∷ [])))
        ≡ ok ms
      → All (λ m. speaks m ≡ true) ms
  called_or_plain msg ms h =
      elim (Bool-cases (is_text "assistant" (get "role" msg) && truthy (get "tool_calls" msg))) [
        | inl calls ↦
            single-speaks (calling_message c msg) ms (calling_message-speaks msg)
              (rw (calls, if◌then◌else◌) at h)
        | inr plain ↦
            single-speaks (plain_message c (get "role" msg) (get "content" msg)) ms
              (plain_message-speaks (get "role" msg) (get "content" msg))
              (rw (plain, if◌then◌else◌) at h)
      ]

  by_role-speaks :
      (msg : Fields) (ms : List Value) → by_role c msg ≡ ok ms → All (λ m. speaks m ≡ true) ms
  unfolding by_role
  by_role-speaks msg ms h = elim (Bool-cases (is_text "system" (get "role" msg))) [
    | inl system ↦ ok-speaks [] ms tt (rw (system, if◌then◌else◌) at h)
    | inr other ↦
        let h' = rw (other, if◌then◌else◌) at h in
        elim (Bool-cases (is_text "tool" (get "role" msg))) [
          | inl tool ↦
              ok-speaks (tool_message c msg ∷ []) ms (tool_message-speaks msg, tt)
                (rw (tool, if◌then◌else◌) at h')
          | inr neither ↦ called_or_plain msg ms (rw (neither, if◌then◌else◌) at h')
        ]
  ]

  message-speaks :
      (v : Value) (ms : List Value) → anthropic_message c v ≡ ok ms → All (λ m. speaks m ≡ true) ms
  unfolding anthropic_message
  message-speaks v ms h = returned (as_dict v) (λ msg _ e. by_role-speaks msg ms e) h

  -- Whatever the messages are: if `_openai_to_anthropic_messages` returns, each message that it
  -- makes is one of the user or of the assistant, the roles that Anthropic takes.
  pub anthropic_messages-speak :
      (messages out : List Value)
      → anthropic_messages c messages ≡ ok out
      → All (λ m. speaks m ≡ true) out
  unfolding anthropic_messages
  anthropic_messages-speak messages out h =
      traverse_all-All (λ m. speaks m ≡ true) (anthropic_message c) message-speaks messages out h
