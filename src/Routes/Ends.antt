-- ===== src/Routes/Ends.antt =====
-- app/api/v1/routes.py: how the endpoints end, and what they send.
use demumumind_panel.Shared.{
  ℕ, ◌+◌, ◌-◌, ◌≤◌, String, ◌≡◌, refl, ap, Bool, true, false, Option, none, some, List, arith,
  length,
}
use demumumind_panel.Errors.{Result, ok, raise}
use demumumind_panel.Manager.Keys.{active_keys}
use demumumind_panel.Dispatch.Call.{Setup, Panel, Call, lift, ◌>>=◌, Chat}
use demumumind_panel.Dispatch.Call.Total.{
  Ends, Anywhere, HasKeys, weaken-Ends, bind-Ends, lift-Ends,
}
use demumumind_panel.Dispatch.Chat.{chat_completion}
use demumumind_panel.Dispatch.Chat.Total.{chat_completion_ends, image_generation-Ends}
use demumumind_panel.Dispatch.Image.{image_generation}
use demumumind_panel.Dispatch.Stream.Total.{chat_completion_stream-Ends, resolve_stream_cache-Ends}
use demumumind_panel.Routes.{
  Arrival, Response, json, event_stream, require_client_key, respond, marked, new_marker,
  completion, streaming, started, cached_or_streaming, stream_response, chat_response,
  chat_completions, images_generations, anthropic_messages, gemini_generate_content,
}

-- A request is answered, with at most n requests more than those of before.
abbrev pub Answered : ℕ → Panel → Option Response × Panel → Type 0
Answered n p o =
    (r : Response) × (p' : Panel) × (o ≡ (some r, p'))
    × (length p'.world.sent ≤ length p.world.sent + n)

responded :
    (rid : String) (n : ℕ) (p p' : Panel) (r : Result Response)
    → length p'.world.sent ≤ length p.world.sent + n
    → Answered n p (respond rid (some r, p'))
unfolding respond
responded rid n p p' (ok r) most = (r, p', refl, most)
responded rid n p p' (raise e) most = (_, p', refl, most)

respond-Answered :
    (rid : String) (k n : ℕ) (m : Call Response)
    → Ends (HasKeys k) Anywhere n m
    → (p : Panel) → HasKeys k p
    → Answered n p (respond rid (m p))
respond-Answered rid k n m ends p h =
    let (r, p', e, _, most) = ends p h in rw e (responded rid n p p' r most)

module _ (s : Setup) (k : ℕ) where
  completion-Ends : (c : Chat) → Ends (HasKeys k) Anywhere (1 + (k - 1)) (completion s c)
  unfolding completion new_marker marked
  completion-Ends c =
      let n = 1 + (k - 1) in
      weaken-Ends (HasKeys k) Anywhere (0 + (n + 0)) n (completion s c) (omega arith) (
        bind-Ends (HasKeys k) (HasKeys k) 0 (n + 0) _ _ (λ p h. (ok tt, _, refl, h, omega arith))
          λ u.
            bind-Ends Anywhere (HasKeys k) n 0 _ _ (chat-Ends c)
              λ result p h. (ok _, p, refl, tt, omega arith))
    where
      chat-Ends : (c : Chat) → Ends (HasKeys k) Anywhere (1 + (k - 1)) (chat_completion s c)
      chat-Ends c p h =
          let (r, p', e, most) = chat_completion_ends s c k p h in (r, p', e, tt, most)

  streaming-Ends : (c : Chat) → Ends Anywhere Anywhere 1 (streaming s c)
  unfolding streaming started
  streaming-Ends c p h =
      let (d, p', e, _, most) = chat_completion_stream-Ends s c p h in
      (ok (event_stream d none), p', ap started e, tt, most)

  cached-Ends :
      (c : Chat) (cached : Option String)
      → Ends Anywhere Anywhere 1 (cached_or_streaming s c cached)
  unfolding cached_or_streaming
  cached-Ends c none p h = streaming-Ends c p h
  cached-Ends c (some sse) p h = (ok _, p, refl, tt, omega arith)

  stream_response-Ends : (c : Chat) → Ends (HasKeys k) Anywhere (1 + (k - 1)) (stream_response s c)
  unfolding stream_response
  stream_response-Ends c p h =
      let (r, p', e, _, most) =
        bind-Ends Anywhere Anywhere 0 1 _ _ (resolve_stream_cache-Ends s c) (cached-Ends c) p tt in
      (r, p', e, tt, omega arith)

  by_stream-Ends :
      (stream : Bool) (c : Chat)
      → Ends (HasKeys k) Anywhere (1 + (k - 1)) (chat_response s stream c)
  unfolding chat_response
  by_stream-Ends true c p h = stream_response-Ends c p h
  by_stream-Ends false c p h = completion-Ends c p h

  with_key :
      (key : Result String) (f : String → Call Response)
      → ((h : String) → Ends (HasKeys k) Anywhere (1 + (k - 1)) (f h))
      → Ends (HasKeys k) Anywhere (1 + (k - 1)) (lift key >>= f)
  with_key key f ends =
      let n = 1 + (k - 1) in
      weaken-Ends (HasKeys k) Anywhere (0 + n) n (lift key >>= f) (omega arith)
        (bind-Ends (HasKeys k) (HasKeys k) 0 n _ _ (lift-Ends (HasKeys k) key) ends)

  image-Ends :
      (c : Chat)
      → Ends
          (HasKeys k)
          Anywhere
          (1 + (k - 1))
          (image_generation s c >>= λ result p. (some (ok (json result none)), p))
  image-Ends c =
      let n = 1 + (k - 1) in
      weaken-Ends (HasKeys k) Anywhere (n + 0) n _ (omega arith) (
        bind-Ends Anywhere (HasKeys k) n 0 _ _ (image_generation-Ends s c k)
          λ result p h. (ok _, p, refl, tt, omega arith))

  -- On every panel where no provider has more than k active keys: each of the four endpoints that
  -- call a model sends a response, whatever the headers and the body, the provider, the database
  -- and the cache do, after at most k requests to the provider, or one if k is 0.
  pub every_request-Answered :
      (hashes : List String) (a : Arrival) (p : Panel)
      → ((provider_id : String) → length (active_keys provider_id p.world.manager) ≤ k)
      → Answered (1 + (k - 1)) p (chat_completions s hashes a p)
        × Answered (1 + (k - 1)) p (images_generations s hashes a p)
        × Answered (1 + (k - 1)) p (anthropic_messages s hashes a p)
        × Answered (1 + (k - 1)) p (gemini_generate_content s hashes a p)
  unfolding chat_completions images_generations anthropic_messages gemini_generate_content
  every_request-Answered hashes a p h =
      let key = require_client_key s hashes a in
      let n = 1 + (k - 1) in
      (
        respond-Answered a.request_id k n _ (with_key key _ λ kh. by_stream-Ends a.stream _) p h,
        respond-Answered a.request_id k n _ (with_key key _ λ kh. image-Ends _) p h,
        respond-Answered a.request_id k n _ (with_key key _ λ kh. completion-Ends _) p h,
        respond-Answered a.request_id k n _ (with_key key _ λ kh. completion-Ends _) p h,
      )
