-- ===== src/Dispatch/Stream/Quiet.antt =====
-- What `resolve_stream_cache` leaves as it is.
use demumumind_panel.Shared.{
  String, refl, Bool, true, false, List, none, some, Bool-cases, inl, inr, if◌then◌else◌,
}
use demumumind_panel.Json.{get}
use demumumind_panel.Errors.{ok}
use demumumind_panel.Pool.{HttpRequest}
use demumumind_panel.Usage.{UsageRow}
use demumumind_panel.Dispatch.{monotonic}
use demumumind_panel.Dispatch.Prompt.{prompt_of}
use demumumind_panel.Dispatch.Call.{Setup, Panel, ImageRow, lift, ◌>>=◌, Chat, read_cache, is_cold}
use demumumind_panel.Dispatch.Call.Runs.{Keeps, bind-Keeps}
use demumumind_panel.Dispatch.Stream.{read_stream, resolve_stream_cache}

-- the rows of usage and of images, and the requests that were sent
abbrev pub traces : Panel → List UsageRow × List ImageRow × List HttpRequest
traces p = (p.usage, p.images, p.world.sent)

module _ (s : Setup) (c : Chat) where
  read_stream-Keeps : (prompt : String) → Keeps traces (read_stream s c prompt)
  unfolding read_stream read_cache monotonic
  read_stream-Keeps prompt p = refl

  cold_read-Keeps :
      (prompt : String)
      → Keeps traces (
          if is_cold (get "temperature" c.body) then read_stream s c prompt else λ p.
          (some (ok none), p))
  cold_read-Keeps prompt = elim (Bool-cases (is_cold (get "temperature" c.body))) [
    | inl cold ↦ rw cold (read_stream-Keeps prompt)
    | inr warm ↦ rw warm (λ p. refl)
  ]

  cached-Keeps :
      (known : Bool)
      → Keeps traces (
          if known
          then (lift (prompt_of s.codec c.body) >>= λ prompt.
              if is_cold (get "temperature" c.body) then read_stream s c prompt else λ p.
              (some (ok none), p))
          else λ p. (some (ok none), p))
  cached-Keeps false p = refl
  cached-Keeps true p = bind-Keeps traces _ _ (λ q. refl) cold_read-Keeps p

  pub resolve_stream_cache-Keeps : Keeps traces (resolve_stream_cache s c)
  unfolding resolve_stream_cache
  resolve_stream_cache-Keeps = bind-Keeps traces _ _ (λ p. refl) cached-Keeps
