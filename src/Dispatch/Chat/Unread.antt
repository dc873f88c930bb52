-- ===== src/Dispatch/Chat/Unread.antt =====
-- Calls whose body has no "messages", as the bodies of Gemini.
mod Examples
use demumumind_panel.Shared.{
  ℕ, ◌+◌, ◌<◌, String, ◌≡◌, refl, ap, ◌∙◌, sym, true, false, Option, none, some, length, ◌==◌, not,
  ◌&&◌, if◌then◌else◌,
}
use demumumind_panel.Text.{join, prefix_of}
use demumumind_panel.Json.{Value, Fields, null, get, truthy, is_null, to_list}
use demumumind_panel.Errors.{ok}
use demumumind_panel.Cache.Laws.{IsValid}
use demumumind_panel.Manager.{ResolvedModel}
use demumumind_panel.Translate.Values.{Codec, iterate_of, traverse}
use demumumind_panel.Dispatch.{extract_prompt}
use demumumind_panel.Dispatch.Prompt.{prompt_of}
use demumumind_panel.Dispatch.Call.{Setup, Panel, Chat, find_model, is_cold, temperature_of}
use demumumind_panel.Dispatch.Call.Runs.{Runs, then-Runs}
use demumumind_panel.Dispatch.Chat.{is_cacheable, text_completion, by_kind, chat_completion}
use demumumind_panel.Dispatch.Chat.Cached.{entry_key}
use demumumind_panel.Dispatch.Chat.Again.{SharesEntry, text_completion_again, by_kind-Runs}

no_prompt : (c : Codec) (body : Fields) → get "messages" body ≡ null → prompt_of c body ≡ ok ""
unfolding prompt_of iterate_of truthy traverse extract_prompt join prefix_of to_list
no_prompt c body h = rw h refl

cold_body :
    (body : Fields)
    → get "temperature" body ≡ null
    → truthy (get "stream" body) ≡ false
    → is_cacheable body ≡ true
unfolding is_cacheable is_cold is_null
cold_body body cold whole = rw (cold, whole) refl

same_entry :
    (s : Setup) (c c' : Chat)
    → c'.key_hash ≡ c.key_hash
    → c'.model ≡ c.model
    → get "temperature" c'.body ≡ get "temperature" c.body
    → get "tools" c'.body ≡ get "tools" c.body
    → (p : String) → entry_key s c' p ≡ entry_key s c p
same_entry s c c' tenant model temperature tools p = rw (tenant, model, temperature, tools) refl

module _ (s : Setup) (c c' : Chat) where
  -- Two calls of one client key for one alias, with whatever contents, where neither body has
  -- "messages", "temperature" or a true "stream" and the tools are the same, as two calls of
  -- generateContent: with a valid cache and readings of the clock that all lie within the time to
  -- live, if the first one returned an answer that json.loads reads back and had sent a request for
  -- it, then the second one, right after it, returns the answer of the first one and sends nothing.
  -- Both times the alias must stand for a model that is no image model.
  pub chat_completion_unread :
      (resolved resolved' : ResolvedModel) (p : Panel) {out : Value} {q : Panel}
      → c'.key_hash ≡ c.key_hash
      → c'.model ≡ c.model
      → get "messages" c.body ≡ null
      → get "messages" c'.body ≡ null
      → get "temperature" c.body ≡ null
      → get "temperature" c'.body ≡ null
      → truthy (get "stream" c.body) ≡ false
      → truthy (get "stream" c'.body) ≡ false
      → get "tools" c'.body ≡ get "tools" c.body
      → IsValid p.cache
      → ((i j : ℕ) → s.env.clock j < s.env.clock i + p.cache.ttl)
      → s.codec.loads (s.dumps_unicode out) ≡ ok out
      → Runs (find_model s c) p resolved p
      → (resolved.kind == "image") ≡ false
      → Runs (find_model s c') q resolved' q
      → (resolved'.kind == "image") ≡ false
      → length p.world.sent < length q.world.sent
      → Runs (chat_completion s c) p out q
      → (q' : Panel) × Runs (chat_completion s c') q out q'
        × (q'.world.sent ≡ q.world.sent)
        × (q'.hit ≡ true)
  unfolding chat_completion by_kind
  chat_completion_unread resolved resolved' p {out} {q} tenant model bare bare' cold cold' whole
        whole' tools v early decoded found kind found' kind' sent h =
      let shares : SharesEntry s c c' = record {
        cacheable = cold_body c.body cold whole;
        cacheable' = cold_body c'.body cold' whole';
        prompt = no_prompt s.codec c'.body bare' ∙ sym (no_prompt s.codec c.body bare);
        entry = same_entry s c c' tenant model (cold' ∙ sym cold) tools;
      } in
      let (q', run, quiet, marked) =
        text_completion_again s c c' resolved resolved' p shares v early decoded sent
          (by_kind-Runs s c resolved p kind h found) in
      (q', then-Runs _ _ q q q' resolved' out found' (rw kind' run), quiet, marked)
