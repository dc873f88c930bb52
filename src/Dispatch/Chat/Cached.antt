-- ===== src/Dispatch/Chat/Cached.antt =====
-- What a cacheable call reads and writes in the cache.
use demumumind_panel.Shared.{
  ℕ, suc, String, ◌≡◌, refl, ap, sym, ◌∙◌, true, Option, none, some, arith, Option-cases, inl, inr,
}
use demumumind_panel.Json.{Value, Fields, get}
use demumumind_panel.Shared.Dict.{lookup}
use demumumind_panel.Errors.{Result, ok}
use demumumind_panel.Cache as Cache
use demumumind_panel.Cache.{CacheService}
use demumumind_panel.Cache.Key.{key, get_cached, set_cached}
use demumumind_panel.Guardrails.{validate_input}
use demumumind_panel.Manager.{ResolvedModel}
use demumumind_panel.Dispatch.{World, monotonic}
use demumumind_panel.Dispatch.Prompt.{prompt_of}
use demumumind_panel.Dispatch.Call.{
  Setup, Panel, Chat, free_row, read_cache, temperature_of, has_pricing,
}
use demumumind_panel.Dispatch.Call.Runs.{
  Runs, bind-Runs, lift-Runs, request-Runs, record_row-Runs, write_cache-Runs, when-Runs, pure-Runs,
  then-Runs, record_row-runs,
}
use demumumind_panel.Dispatch.Chat.{
  is_cacheable, record_answer, answered, hit, ask, look_up, text_completion,
}

pub ttl-get : (now : ℕ) (k : String) (c : CacheService) → (Cache.get now k c).1.ttl ≡ c.ttl
unfolding Cache.get
ttl-get now k c = elim (Option-cases (lookup k c.store)) [
  | inl miss ↦ rw (miss, Cache.get)
  | inr (e, found) ↦ ground (arith, found)
]

module _ (s : Setup) (c : Chat) where
  -- the key of the call's entry, by its prompt
  abbrev pub entry_key : String → String
  entry_key prompt =
      key s.digests s.panel_key c.model prompt (temperature_of (get "temperature" c.body))
        (get "tools" c.body) c.key_hash

  pub look_up-Runs :
      (prompt : String) (p : Panel) {o : Option String} {q : Panel}
      → is_cacheable c.body ≡ true
      → Runs (look_up s c prompt) p o q
      → (o ≡ (Cache.get (s.env.clock p.world.readings) (entry_key prompt) p.cache).0)
        × (q.cache ≡ (Cache.get (s.env.clock p.world.readings) (entry_key prompt) p.cache).1)
        × (q.world.sent ≡ p.world.sent)
  unfolding look_up read_cache monotonic get_cached
  look_up-Runs prompt p {o} {q} cold h =
      let h' = rw (cold, look_up) at h in
      (
        value_of (ap (λ (x : Option (Result (Option String)) × Panel). x.0) (sym h')),
        ap (λ (x : Option (Result (Option String)) × Panel). x.1.cache) (sym h'),
        ap (λ (x : Option (Result (Option String)) × Panel). x.1.world.sent) (sym h'),
      )
    where
      value_of :
          {a b : Option String}
          → ◌≡◌ {A = Option (Result (Option String))} (some (ok a)) (some (ok b))
          → a ≡ b
      value_of e = cc

  -- a hit sends nothing
  pub hit-Runs :
      (resolved : ResolvedModel) (v : String) (p : Panel) {a : Value} {q : Panel}
      → Runs (hit s c resolved v) p a q
      → q.world.sent ≡ p.world.sent
  unfolding hit
  hit-Runs resolved v p h =
      let (u, p1, h1, k1) = bind-Runs _ _ p h in
      let (u', p2, h2, k2) = bind-Runs _ _ p1 k1 in
      let (_, last) = lift-Runs _ p2 k2 in
      let (_, world) = record_row-Runs s _ p1 h2 in
      let first = ap (λ (x : Option (Result (Unit {0})) × Panel). x.1.world) h1 in
      ap (λ (w : World). w.sent) (ap (λ (x : Panel). x.world) (sym last) ∙ world ∙ sym first)

  record_answer-Runs :
      (resolved : ResolvedModel) (target : String) (answer : Fields) (p : Panel) {u : Unit {0}}
      {q : Panel}
      → Runs (record_answer s c resolved target answer) p u q
      → q.cache ≡ p.cache
  unfolding record_answer
  record_answer-Runs resolved target answer p h =
      let (counts, p1, h1, k1) = bind-Runs _ _ p h in
      let (_, same) = lift-Runs _ p h1 in
      let (cache, _) = record_row-Runs s _ p1 k1 in cache ∙ ap (λ (x : Panel). x.cache) (sym same)

  written_at :
      (k : String) {p p4 p6 q : Panel} {c5 : CacheService} {o out : Value}
      → p ≡ p4
      → Cache.set (s.env.clock p4.world.readings) k (s.dumps_unicode o) p4.cache ≡ ok c5
      → p6.cache ≡ c5
      → p6 ≡ q
      → o ≡ out
      → Cache.set (s.env.clock p.world.readings) k (s.dumps_unicode out) p.cache ≡ ok q.cache
  written_at k same written kept last made =
      rw (same, ← made, ← last) (written ∙ ap (λ (c' : CacheService). ok c') (sym kept))

  -- What the provider answers, a cacheable call leaves in the cache.
  answered-Runs :
      (resolved : ResolvedModel) (prompt target : String) (answer : Value) (latency : ℕ) (p : Panel)
      {out : Value} {q : Panel}
      → is_cacheable c.body ≡ true
      → Runs (answered s c resolved prompt target (answer, latency)) p out q
      → Cache.set (s.env.clock p.world.readings) (entry_key prompt) (s.dumps_unicode out) p.cache
        ≡ ok q.cache
  unfolding answered set_cached
  answered-Runs resolved prompt target answer latency p {out} {q} cold h =
      let (fields, p1, h1, k1) = bind-Runs _ _ p h in
      let (output, p2, h2, k2) = bind-Runs _ _ p1 k1 in
      let (content, p3, h3, k3) = bind-Runs _ _ p2 k2 in
      let (checked, p4, h4, k4) = bind-Runs _ _ p3 k3 in
      let (u, p5, h5, k5) = bind-Runs _ _ p4 k4 in
      let (u', p6, h6, k6) = bind-Runs _ _ p5 k5 in
      let same =
        (lift-Runs _ p h1).1
        ∙ (lift-Runs _ p1 h2).1
        ∙ (lift-Runs _ p2 h3).1
        ∙ (lift-Runs _ p3 h4).1 in
      let written = write_cache-Runs s _ p4 (when-Runs _ _ p4 cold h5) in
      let kept = record_answer-Runs resolved target fields p5 h6 in
      let (made, last) = pure-Runs _ p6 k6 in
      written_at (entry_key prompt) same written kept last made

  -- the call of the provider writes at some reading of the clock
  pub ask-Runs :
      (resolved : ResolvedModel) (prompt : String) (p : Panel) {out : Value} {q : Panel}
      → is_cacheable c.body ≡ true
      → Runs (ask s c resolved prompt) p out q
      → (i : ℕ) × (Cache.set (s.env.clock i) (entry_key prompt) (s.dumps_unicode out) p.cache
          ≡ ok q.cache)
  unfolding ask
  ask-Runs resolved prompt p {out} {q} cold h =
      let (translated, p1, h1, k1) = bind-Runs _ _ p h in
      let (r, p2, h2, k2) = bind-Runs _ _ p1 k1 in
      let (_, same) = lift-Runs _ p h1 in
      let cache : p2.cache ≡ p.cache =
        request-Runs s _ p1 h2 ∙ ap (λ (x : Panel). x.cache) (sym same) in
      let written = answered-Runs resolved prompt _ r.0 r.1 p2 cold k2 in
      (p2.world.readings, rw (← cache) written)

  -- the parts of a call that returned
  pub text_completion-Runs :
      (resolved : ResolvedModel) (p : Panel) {out : Value} {q : Panel}
      → Runs (text_completion s c resolved) p out q
      → (prompt : String) × (o : Option String) × (p1 : Panel) × (prompt_of s.codec c.body
          ≡ ok prompt)
        × (validate_input s.guardrail (some prompt) ≡ ok tt)
        × Runs (look_up s c prompt) p o p1
        × Runs (elim o [ some v ↦ hit s c resolved v | none ↦ ask s c resolved prompt ]) p1 out q
  unfolding text_completion
  text_completion-Runs resolved p h =
      let (prompt, p1, h1, k1) = bind-Runs _ _ p h in
      let (u, p2, h2, k2) = bind-Runs _ _ p1 k1 in
      let (o, p3, h3, k3) = bind-Runs _ _ p2 k2 in
      let (found, same) = lift-Runs _ p h1 in
      let (valid, same') = lift-Runs _ p1 h2 in
      (prompt, o, p3, found, valid, rw (same, same') h3, k3)

  -- a hit returns what json.loads reads
  pub hit_runs :
      (resolved : ResolvedModel) (v : String) (p : Panel) (a : Value)
      → s.codec.loads v ≡ ok a
      → (q : Panel) × Runs (hit s c resolved v) p a q
        × (q.world.sent ≡ p.world.sent)
        × (q.hit ≡ true)
  unfolding hit
  hit_runs resolved v p a read =
      let p1 = record p { hit = true } in
      let row = free_row s c resolved (has_pricing resolved) true p1 in
      let (rows, h) = record_row-runs s row p1 in
      let q = record p1 { usage = rows; sessions = suc p1.sessions } in
      (q, then-Runs _ _ p p1 q tt a refl (then-Runs _ _ p1 q q tt a h (rw read)), refl, refl)
