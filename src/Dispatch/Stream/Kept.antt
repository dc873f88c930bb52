-- ===== src/Dispatch/Stream/Kept.antt =====
-- What a stream leaves in the cache.
use demumumind_panel.Shared.{
  ◌+◌, String, ◌≡◌, refl, ap, sym, true, false, Option, none, some, List, [], ◌∷◌, arith, leb,
  is_empty, Bool-cases, inl, inr, if◌then◌else◌,
}
use demumumind_panel.Text.{Bytes}
use demumumind_panel.Dispatch.StreamUsage.{join_bytes}
use demumumind_panel.Json.{get}
use demumumind_panel.Errors.{Result, ok, raise}
use demumumind_panel.Cache as Cache
use demumumind_panel.Cache.{CacheService}
use demumumind_panel.Cache.Key.{stream_key, set_stream}
use demumumind_panel.Cache.Laws.{IsValid}
use demumumind_panel.Cache.Reads.{get-set_self}
use demumumind_panel.Manager.{ResolvedModel}
use demumumind_panel.Dispatch.{monotonic}
use demumumind_panel.Dispatch.Call.{
  Setup, Panel, Ending, StreamReply, opened, refused, ◌>>=◌, Chat, write_cache, stored,
  temperature_of, is_cold,
}
use demumumind_panel.Dispatch.Call.Runs.{Runs, Keeps, bind-Keeps, record_row-KeepsCache, bind-Runs}
use demumumind_panel.Dispatch.Stream.{
  Delivered, write_stream, record_stream, finish, deliver, ended, relay,
}

module _ (s : Setup) (c : Chat) where
  -- the key of the call's SSE entry, by its prompt
  abbrev pub sse_key : String → String
  sse_key prompt =
      stream_key s.digests s.panel_key c.model prompt (temperature_of (get "temperature" c.body))
        (get "tools" c.body) c.key_hash

  record_stream-KeepsCache :
      (resolved : ResolvedModel) (chunks : List Bytes)
      → Keeps (λ p. p.cache) (record_stream s c resolved chunks)
  unfolding record_stream
  record_stream-KeepsCache resolved chunks =
      bind-Keeps (λ p. p.cache) _ _ (λ p. refl)
        λ usage.
          bind-Keeps (λ p. p.cache) _ _ (λ p. refl)
            λ tokens_in.
              bind-Keeps (λ p. p.cache) _ _ (λ p. refl) λ tokens_out p. record_row-KeepsCache s _ p

  -- The `finally` block stores the chunks, also where it raises afterwards.
  finish_stores :
      (resolved : ResolvedModel) (prompt : String) (x : Bytes) (xs : List Bytes) (p : Panel)
      → is_cold (get "temperature" c.body) ≡ true
      → IsValid p.cache
      → Cache.set
          (s.env.clock p.world.readings)
          (sse_key prompt)
          (s.decode (join_bytes (x ∷ xs)))
          p.cache
        ≡ ok (finish s c resolved prompt (x ∷ xs) p).1.cache
  unfolding finish write_stream write_cache monotonic stored set_stream ◌>>=◌
  finish_stores resolved prompt x xs p cold v =
      let now = s.env.clock p.world.readings in
      let (c', e, _) =
        get-set_self now 0 (sse_key prompt) (s.decode (join_bytes (x ∷ xs))) p.cache v in
      let w = record p.world { readings = p.world.readings + 1 } in
      rw cold (
        rw e (
          ap (λ (x : CacheService). ok x)
            (sym
              (record_stream-KeepsCache resolved (x ∷ xs) (record p { world = w; cache = c' })))))

  same_delivery :
      (d' : Delivered) (p : Panel) {d : Delivered} {q : Panel}
      → ◌≡◌ {A = Option (Result Delivered) × Panel} (some (ok d'), p) (some (ok d), q)
      → (d.chunks ≡ d'.chunks) × (p ≡ q)
  same_delivery d' p {d} h = let e : d' ≡ d = cc in (ap (λ (y : Delivered). y.chunks) (sym e), cc)

  deliver-Runs :
      (ending : Ending) (chunks : List Bytes) (o : Option (Result (Unit {0})) × Panel)
      {d : Delivered} {q : Panel}
      → deliver s ending chunks o ≡ (some (ok d), q)
      → (d.chunks ≡ chunks) × (o.1 ≡ q)
  unfolding deliver
  deliver-Runs ending chunks (none, p) h = absurd (ground (arith, h))
  deliver-Runs ending chunks (some (ok u), p) h =
      same_delivery (record { chunks = chunks; result = ended s ending }) p h
  deliver-Runs ending chunks (some (raise e), p) h =
      same_delivery (record { chunks = chunks; result = raise e }) p h

  pub relay-Runs :
      (resolved : ResolvedModel) (prompt : String) (reply : StreamReply) (p : Panel) {d : Delivered}
      {q : Panel}
      → is_cold (get "temperature" c.body) ≡ true
      → IsValid p.cache
      → is_empty d.chunks ≡ false
      → Runs (relay s c resolved prompt reply) p d q
      → Cache.set
          (s.env.clock p.world.readings)
          (sse_key prompt)
          (s.decode (join_bytes d.chunks))
          p.cache
        ≡ ok q.cache
  unfolding relay
  relay-Runs resolved prompt (refused name) p cold v some_chunk h = absurd (ground (arith, h))
  relay-Runs resolved prompt (opened status text chunks ending) p {d} {q} cold v some_chunk h =
      elim (Bool-cases (leb 400 status)) [
        | inl bad ↦
            let (t, p1, h1, k1) = bind-Runs _ _ p (rw (bad, if◌then◌else◌) at h) in
            absurd (ground (arith, k1))
        | inr fine ↦
            let (same, last) =
              deliver-Runs ending chunks (finish s c resolved prompt chunks p)
                (rw (fine, if◌then◌else◌) at h) in
            rw (same, ← last) (by_chunks chunks (rw same at some_chunk))
      ]
    where
      by_chunks :
          (chunks : List Bytes)
          → is_empty chunks ≡ false
          → Cache.set
              (s.env.clock p.world.readings)
              (sse_key prompt)
              (s.decode (join_bytes chunks))
              p.cache
            ≡ ok (finish s c resolved prompt chunks p).1.cache
      by_chunks [] e = absurd (ground (arith, e))
      by_chunks (x ∷ xs) e = finish_stores resolved prompt x xs p cold v
