-- ===== src/Dispatch/Stream/Replayed.antt =====
-- The same streaming call again.
use demumumind_panel.Shared.{
  ℕ, suc, ◌+◌, ◌<◌, String, ◌≡◌, refl, ap, sym, ◌∙◌, true, false, Option, none, some, [], ◌∷◌,
  arith, length, is_empty,
}
use demumumind_panel.Dispatch.StreamUsage.{join_bytes}
use demumumind_panel.Json.{get}
use demumumind_panel.Errors.{Result, ok}
use demumumind_panel.Cache as Cache
use demumumind_panel.Cache.{CacheService}
use demumumind_panel.Cache.Key.{get_stream}
use demumumind_panel.Cache.Laws.{IsValid, get-IsValid}
use demumumind_panel.Cache.Reads.{get-set_early}
use demumumind_panel.Manager.{ResolvedModel}
use demumumind_panel.Dispatch.{World, monotonic}
use demumumind_panel.Dispatch.Prompt.{prompt_of}
use demumumind_panel.Dispatch.Call.{
  Setup, Panel, StreamReply, Chat, find_model, free_row, read_cache, is_cold, has_pricing,
}
use demumumind_panel.Dispatch.Call.Runs.{
  Runs, bind-Runs, lift-Runs, then-Runs, rest-Runs, record_row-Runs, record_row-runs, pure-Runs,
}
use demumumind_panel.Dispatch.Chat.Cached.{ttl-get}
use demumumind_panel.Dispatch.Stream.{
  Delivered, open_stream, ask, replay, look_up, read_stream, stream_of, chat_completion_stream,
}
use demumumind_panel.Dispatch.Stream.Kept.{sse_key, relay-Runs}

module _ (s : Setup) (c : Chat) where
  look_up-Runs :
      (prompt : String) (p : Panel) {o : Option String} {q : Panel}
      → is_cold (get "temperature" c.body) ≡ true
      → Runs (look_up s c prompt) p o q
      → (q.cache ≡ (Cache.get (s.env.clock p.world.readings) (sse_key s c prompt) p.cache).1)
        × (q.world.sent ≡ p.world.sent)
  unfolding look_up read_stream read_cache monotonic get_stream
  look_up-Runs prompt p cold h =
      let h' = rw (cold, look_up) at h in
      (
        ap (λ (x : Option (Result (Option String)) × Panel). x.1.cache) (sym h'),
        ap (λ (x : Option (Result (Option String)) × Panel). x.1.world.sent) (sym h'),
      )

  look_up_runs :
      (prompt value : String) (p : Panel)
      → is_cold (get "temperature" c.body) ≡ true
      → (Cache.get (s.env.clock p.world.readings) (sse_key s c prompt) p.cache).0 ≡ some value
      → (q : Panel) × Runs (look_up s c prompt) p (some value) q × (q.world.sent ≡ p.world.sent)
  unfolding look_up read_stream read_cache monotonic get_stream
  look_up_runs prompt value p cold read =
      let w = record p.world { readings = p.world.readings + 1 } in
      let q = record p {
        world = w;
        cache = (Cache.get (s.env.clock p.world.readings) (sse_key s c prompt) p.cache).1;
      } in
      (q, rw (cold, look_up) (ap (λ (o : Option String). (some (ok o), q)) read), refl)

  replay-Runs :
      (resolved : ResolvedModel) (v : String) (p : Panel) {d : Delivered} {q : Panel}
      → Runs (replay s c resolved v) p d q
      → q.world.sent ≡ p.world.sent
  unfolding replay
  replay-Runs resolved v p h =
      let (u, p1, h1, k1) = bind-Runs _ _ p h in
      let (_, last) = pure-Runs _ p1 k1 in
      let (_, world) = record_row-Runs s _ p h1 in
      ap (λ (w : World). w.sent) (ap (λ (x : Panel). x.world) (sym last) ∙ world)

  replay_runs :
      (resolved : ResolvedModel) (v : String) (p : Panel)
      → (q : Panel) × Runs
          (replay s c resolved v)
          p
          (record { chunks = s.encode v ∷ []; result = ok tt })
          q
        × (q.world.sent ≡ p.world.sent)
  unfolding replay
  replay_runs resolved v p =
      let row = free_row s c resolved (has_pricing resolved) true p in
      let (rows, h) = record_row-runs s row p in
      let q = record p { usage = rows; sessions = suc p.sessions } in
      (q, then-Runs _ _ p q q tt _ h refl, refl)

  ask-Runs :
      (resolved : ResolvedModel) (prompt : String) (p : Panel) {d : Delivered} {q : Panel}
      → is_cold (get "temperature" c.body) ≡ true
      → IsValid p.cache
      → is_empty d.chunks ≡ false
      → Runs (ask s c resolved prompt) p d q
      → (i : ℕ) × (Cache.set
            (s.env.clock i)
            (sse_key s c prompt)
            (s.decode (join_bytes d.chunks))
            p.cache
          ≡ ok q.cache)
  unfolding ask open_stream
  ask-Runs resolved prompt p cold v some_chunk h =
      let (translated, p1, h1, k1) = bind-Runs _ _ p h in
      let (reply, p2, h2, k2) = bind-Runs _ _ p1 k1 in
      let (_, same) = lift-Runs _ p h1 in
      let opened : p2.cache ≡ p1.cache =
        ap (λ (x : Option (Result StreamReply) × Panel). x.1.cache) (sym h2) in
      let cache : p2.cache ≡ p.cache = opened ∙ ap (λ (x : Panel). x.cache) (sym same) in
      let written = relay-Runs s c resolved prompt reply p2 cold (rw cache v) some_chunk k2 in
      (p2.world.readings, rw (← cache) written)

  found_runs :
      (resolved : ResolvedModel) (prompt value : String) (p : Panel)
      → is_cold (get "temperature" c.body) ≡ true
      → prompt_of s.codec c.body ≡ ok prompt
      → (Cache.get (s.env.clock p.world.readings) (sse_key s c prompt) p.cache).0 ≡ some value
      → (q : Panel) × Runs
          (stream_of s c resolved)
          p
          (record { chunks = s.encode value ∷ []; result = ok tt })
          q
        × (q.world.sent ≡ p.world.sent)
  unfolding stream_of
  found_runs resolved prompt value p cold asked read =
      let (p1, h1, sent1) = look_up_runs prompt value p cold read in
      let (q, h2, sent2) = replay_runs resolved value p1 in
      (
        q,
        then-Runs _ _ p p q prompt _ (rw asked) (then-Runs _ _ p p1 q (some value) _ h1 h2),
        sent2 ∙ sent1,
      )

  -- A streaming call of temperature 0 or none, with a valid cache and readings of the clock that all
  -- lie within the time to live: if it sent a request and delivered some chunks, then the same call
  -- after it sends nothing and delivers these chunks as a whole answer: joined, decoded with
  -- errors="replace" and encoded again. That is so however the first stream ended: also where the
  -- provider broke off, be it inside a character, or the reader went away.
  pub chat_completion_stream_again :
      (resolved resolved' : ResolvedModel) (p : Panel) {d : Delivered} {q : Panel}
      → is_cold (get "temperature" c.body) ≡ true
      → IsValid p.cache
      → ((i j : ℕ) → s.env.clock j < s.env.clock i + p.cache.ttl)
      → Runs (find_model s c) p resolved p
      → Runs (find_model s c) q resolved' q
      → length p.world.sent < length q.world.sent
      → is_empty d.chunks ≡ false
      → Runs (chat_completion_stream s c) p d q
      → (q' : Panel) × Runs
          (chat_completion_stream s c)
          q
          (record { chunks = s.encode (s.decode (join_bytes d.chunks)) ∷ []; result = ok tt })
          q'
        × (q'.world.sent ≡ q.world.sent)
  unfolding chat_completion_stream stream_of
  chat_completion_stream_again resolved resolved' p {d} {q} cold v early found found' sent
        some_chunk h =
      let h0 = rest-Runs _ _ p p q resolved d found h in
      let (prompt, p1, h1, k1) = bind-Runs _ _ p h0 in
      let (o, p2, h2, k2) = bind-Runs _ _ p1 k1 in
      let (asked, same) = lift-Runs _ p h1 in by_entry prompt o p2 asked (rw same h2) k2
    where
      by_entry :
          (prompt : String) (o : Option String) (p2 : Panel)
          → prompt_of s.codec c.body ≡ ok prompt
          → Runs (look_up s c prompt) p o p2
          → Runs
              (elim o [ some v' ↦ replay s c resolved v' | none ↦ ask s c resolved prompt ])
              p2
              d
              q
          → (q' : Panel) × Runs
              (chat_completion_stream s c)
              q
              (record { chunks = s.encode (s.decode (join_bytes d.chunks)) ∷ []; result = ok tt })
              q'
            × (q'.world.sent ≡ q.world.sent)
      by_entry prompt (some v') p2 asked looked run =
          let (_, sent2) = look_up-Runs prompt p cold looked in
          let none_sent = ap length (replay-Runs resolved v' p2 run) in
          let before = ap length sent2 in absurd (omega (arith, none_sent, before, sent))
      by_entry prompt none p2 asked looked run =
          let (cache, _) = look_up-Runs prompt p cold looked in
          let now = s.env.clock p.world.readings in
          let v2 : IsValid p2.cache = rw cache (get-IsValid now (sse_key s c prompt) p.cache v) in
          let ttl : p2.cache.ttl ≡ p.cache.ttl =
            ap (λ (x : CacheService). x.ttl) cache ∙ ttl-get now (sse_key s c prompt) p.cache in
          let (i, written) = ask-Runs resolved prompt p2 cold v2 some_chunk run in
          let j = q.world.readings in
          let read =
            get-set_early (sse_key s c prompt) (s.decode (join_bytes d.chunks)) (s.env.clock i)
              (s.env.clock j) p2.cache q.cache v2 (rw ttl (early i j)) written in
          let (q', run', quiet) =
            found_runs resolved' prompt (s.decode (join_bytes d.chunks)) q cold asked read in
          (q', then-Runs _ _ q q q' resolved' _ found' run', quiet)
