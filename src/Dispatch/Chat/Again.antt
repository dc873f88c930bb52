-- ===== src/Dispatch/Chat/Again.antt =====
-- The same cacheable call again.
use demumumind_panel.Shared.{
  ℕ, ◌+◌, ◌<◌, String, ◌≡◌, refl, ap, ◌∙◌, true, false, Option, none, some, arith, length, ◌==◌,
}
use demumumind_panel.Json.{Value}
use demumumind_panel.Errors.{ok}
use demumumind_panel.Cache as Cache
use demumumind_panel.Cache.{CacheService}
use demumumind_panel.Cache.Laws.{IsValid, get-IsValid}
use demumumind_panel.Cache.Reads.{get-set_early}
use demumumind_panel.Cache.Key.{get_cached}
use demumumind_panel.Guardrails.{validate_input}
use demumumind_panel.Manager.{ResolvedModel}
use demumumind_panel.Dispatch.{monotonic}
use demumumind_panel.Dispatch.Prompt.{prompt_of}
use demumumind_panel.Dispatch.Call.{Setup, Panel, Chat, find_model, read_cache}
use demumumind_panel.Dispatch.Call.Runs.{Runs, then-Runs, rest-Runs}
use demumumind_panel.Dispatch.Chat.{
  is_cacheable, hit, ask, look_up, text_completion, by_kind, chat_completion,
}
use demumumind_panel.Dispatch.Chat.Cached.{
  ttl-get, entry_key, look_up-Runs, hit-Runs, ask-Runs, text_completion-Runs, hit_runs,
}

module _ (s : Setup) (c : Chat) where
  look_up_runs :
      (prompt value : String) (p : Panel)
      → is_cacheable c.body ≡ true
      → (Cache.get (s.env.clock p.world.readings) (entry_key s c prompt) p.cache).0 ≡ some value
      → (q : Panel) × Runs (look_up s c prompt) p (some value) q × (q.world.sent ≡ p.world.sent)
  unfolding look_up read_cache monotonic get_cached
  look_up_runs prompt value p cold read =
      let w = record p.world { readings = p.world.readings + 1 } in
      let q = record p {
        world = w;
        cache = (Cache.get (s.env.clock p.world.readings) (entry_key s c prompt) p.cache).1;
      } in
      (q, rw (cold, look_up) (ap (λ (o : Option String). (some (ok o), q)) read), refl)

  -- A call that finds an entry answers with it.
  found_runs :
      (resolved : ResolvedModel) (prompt value : String) (a : Value) (p : Panel)
      → is_cacheable c.body ≡ true
      → prompt_of s.codec c.body ≡ ok prompt
      → validate_input s.guardrail (some prompt) ≡ ok tt
      → (Cache.get (s.env.clock p.world.readings) (entry_key s c prompt) p.cache).0 ≡ some value
      → s.codec.loads value ≡ ok a
      → (q : Panel) × Runs (text_completion s c resolved) p a q
        × (q.world.sent ≡ p.world.sent)
        × (q.hit ≡ true)
  unfolding text_completion
  found_runs resolved prompt value a p cold asked valid read decoded =
      let (p1, h1, sent1) = look_up_runs prompt value p cold read in
      let (q, h2, sent2, marked) = hit_runs s c resolved value p1 a decoded in
      (
        q,
        then-Runs _ _ p p q prompt a (rw asked)
            (then-Runs _ _ p p q tt a (rw valid) (then-Runs _ _ p p1 q (some value) a h1 h2)),
        sent2 ∙ sent1,
        marked,
      )

-- what two calls have in common that the cache takes for the same
pub record SharesEntry (s : Setup) (c c' : Chat) : Type 0 where
  pub cacheable : is_cacheable c.body ≡ true
  pub cacheable' : is_cacheable c'.body ≡ true
  pub prompt : prompt_of s.codec c'.body ≡ prompt_of s.codec c.body
  pub entry : (p : String) → entry_key s c' p ≡ entry_key s c p

module _ (s : Setup) (c c' : Chat) where
  -- The call on its own, from the resolved model on.
  pub text_completion_again :
      (resolved resolved' : ResolvedModel) (p : Panel) {out : Value} {q : Panel}
      → SharesEntry s c c'
      → IsValid p.cache
      → ((i j : ℕ) → s.env.clock j < s.env.clock i + p.cache.ttl)
      → s.codec.loads (s.dumps_unicode out) ≡ ok out
      → length p.world.sent < length q.world.sent
      → Runs (text_completion s c resolved) p out q
      → (q' : Panel) × Runs (text_completion s c' resolved') q out q'
        × (q'.world.sent ≡ q.world.sent)
        × (q'.hit ≡ true)
  text_completion_again resolved resolved' p {out} {q} shares v early decoded sent h =
      let cold = shares.cacheable in
      let (prompt, o, p1, asked, valid, h1, h2) = text_completion-Runs s c resolved p h in
      let (_, cache, sent1) = look_up-Runs s c prompt p cold h1 in
      let get_now = Cache.get (s.env.clock p.world.readings) (entry_key s c prompt) p.cache in
      let v1 : IsValid p1.cache =
        rw cache (get-IsValid (s.env.clock p.world.readings) (entry_key s c prompt) p.cache v) in
      let ttl : p1.cache.ttl ≡ p.cache.ttl =
        ap (λ (x : CacheService). x.ttl) cache
        ∙ ttl-get (s.env.clock p.world.readings) (entry_key s c prompt) p.cache in
      by_entry prompt o p1 asked valid v1 ttl sent1 h2
    where
      by_entry :
          (prompt : String) (o : Option String) (p1 : Panel)
          → prompt_of s.codec c.body ≡ ok prompt
          → validate_input s.guardrail (some prompt) ≡ ok tt
          → IsValid p1.cache
          → p1.cache.ttl ≡ p.cache.ttl
          → p1.world.sent ≡ p.world.sent
          → Runs (elim o [ some v ↦ hit s c resolved v | none ↦ ask s c resolved prompt ]) p1 out q
          → (q' : Panel) × Runs (text_completion s c' resolved') q out q'
            × (q'.world.sent ≡ q.world.sent)
            × (q'.hit ≡ true)
      by_entry prompt (some v') p1 asked valid v1 ttl sent1 run =
          let none_sent = ap length (hit-Runs s c resolved v' p1 run) in
          let before = ap length sent1 in absurd (omega (arith, none_sent, before, sent))
      by_entry prompt none p1 asked valid v1 ttl sent1 run =
          let (i, written) = ask-Runs s c resolved prompt p1 shares.cacheable run in
          let j = q.world.readings in
          found_runs s c' resolved' prompt (s.dumps_unicode out) out q shares.cacheable'
            (shares.prompt ∙ asked) valid
            (rw (shares.entry prompt) (
              get-set_early (entry_key s c prompt) (s.dumps_unicode out) (s.env.clock i)
                (s.env.clock j) p1.cache q.cache v1 (rw ttl (early i j)) written))
            decoded

module _ (s : Setup) (c : Chat) where
  pub by_kind-Runs :
      (resolved : ResolvedModel) (p : Panel) {out : Value} {q : Panel}
      → (resolved.kind == "image") ≡ false
      → Runs (chat_completion s c) p out q
      → Runs (find_model s c) p resolved p
      → Runs (text_completion s c resolved) p out q
  unfolding chat_completion by_kind
  by_kind-Runs resolved p {out} {q} kind h found =
      rw kind at (rest-Runs _ _ p p q resolved out found h)

  -- A cacheable call of `chat_completion`, with a valid cache and readings of the clock that all lie
  -- within the time to live: if it returned an answer that json.loads reads back and had sent a
  -- request for it, then the same call after it returns the same answer from the cache, is marked as
  -- a hit and sends nothing. Both times the alias must stand for a model that is no image model; it
  -- need not be the same one.
  pub chat_completion_again :
      (resolved resolved' : ResolvedModel) (p : Panel) {out : Value} {q : Panel}
      → is_cacheable c.body ≡ true
      → IsValid p.cache
      → ((i j : ℕ) → s.env.clock j < s.env.clock i + p.cache.ttl)
      → s.codec.loads (s.dumps_unicode out) ≡ ok out
      → Runs (find_model s c) p resolved p
      → (resolved.kind == "image") ≡ false
      → Runs (find_model s c) q resolved' q
      → (resolved'.kind == "image") ≡ false
      → length p.world.sent < length q.world.sent
      → Runs (chat_completion s c) p out q
      → (q' : Panel) × Runs (chat_completion s c) q out q'
        × (q'.world.sent ≡ q.world.sent)
        × (q'.hit ≡ true)
  unfolding chat_completion by_kind
  chat_completion_again resolved resolved' p {out} {q} cold v early decoded found kind found' kind'
        sent h =
      let (q', run, quiet, marked) =
        text_completion_again s c c resolved resolved' p
          (record { cacheable = cold; cacheable' = cold; prompt = refl; entry = λ x. refl }) v early
          decoded sent (by_kind-Runs resolved p kind h found) in
      (q', then-Runs _ _ q q q' resolved' out found' (rw kind' run), quiet, marked)
