-- ===== src/Dispatch/Stream/Total.antt =====
-- How a stream ends, and what it sends.
use demumumind_panel.Shared.{
  String, Bool, true, false, if◌then◌else◌, ◌≡◌, refl, Option, none, some, List, arith, Bool-cases,
  inl, inr, leb,
}
use demumumind_panel.Text.{Bytes}
use demumumind_panel.Json.{Fields}
use demumumind_panel.Dispatch.Prompt.{prompt_of}
use demumumind_panel.Errors.{Result, ok, raise}
use demumumind_panel.Manager.{ResolvedModel}
use demumumind_panel.Dispatch.Call.{
  Setup, Panel, Chat, StreamReply, opened, refused, Ending, is_cold, read_cache, lift, ◌>>=◌,
}
use demumumind_panel.Json.{get}
use demumumind_panel.Dispatch.Call.Total.{
  Ends, Anywhere, quiet-Ends, bind-Ends, lift-Ends, when-Ends, find_model-Ends, write_cache-Ends,
  record_row-Ends,
}
use demumumind_panel.Dispatch.{monotonic}
use demumumind_panel.Dispatch.Stream.{
  Delivered, record_stream, write_stream, read_stream, finish, deliver, relay, open_stream, replay,
  ask, look_up, stream_of, chat_completion_stream, resolve_stream_cache,
}

module _ (s : Setup) (c : Chat) where
  record_stream-Ends :
      (resolved : ResolvedModel) (chunks : List Bytes)
      → Ends Anywhere Anywhere 0 (record_stream s c resolved chunks)
  unfolding record_stream
  record_stream-Ends resolved chunks = quiet-Ends _ _ (lift-Ends Anywhere _) λ usage.
      quiet-Ends _ _ (lift-Ends Anywhere _) λ tokens_in.
        quiet-Ends _ _ (lift-Ends Anywhere _) λ tokens_out. λ p h. record_row-Ends s _ p h

  finish-Ends :
      (resolved : ResolvedModel) (prompt : String) (chunks : List Bytes)
      → Ends Anywhere Anywhere 0 (finish s c resolved prompt chunks)
  unfolding finish write_stream
  finish-Ends resolved prompt chunks =
      quiet-Ends _ _ (when-Ends _ _ (write_cache-Ends s _)) λ u. record_stream-Ends resolved chunks

  deliver-Ends :
      (ending : Ending) (chunks : List Bytes) (r : Result (Unit {0})) (p : Panel)
      → (d : Result Delivered) × (deliver s ending chunks (some r, p) ≡ (some d, p))
  unfolding deliver
  deliver-Ends ending chunks (ok u) p = (ok _, refl)
  deliver-Ends ending chunks (raise e) p = (ok _, refl)

  relayed-Ends :
      (resolved : ResolvedModel) (prompt : String) (chunks : List Bytes) (ending : Ending)
      → Ends Anywhere Anywhere 0
          (λ p. deliver s ending chunks (finish s c resolved prompt chunks p))
  relayed-Ends resolved prompt chunks ending p h =
      let (r, p', e, _, most) = finish-Ends resolved prompt chunks p h in
      let (d, e') = deliver-Ends ending chunks r p' in (d, p', rw e e', tt, most)

  relay-Ends :
      (resolved : ResolvedModel) (prompt : String) (reply : StreamReply)
      → Ends Anywhere Anywhere 0 (relay s c resolved prompt reply)
  unfolding relay
  relay-Ends resolved prompt (refused name) = lift-Ends Anywhere _
  relay-Ends resolved prompt (opened status text chunks ending) =
      elim (Bool-cases (leb 400 status)) [
        | inl bad ↦ rw bad (quiet-Ends _ _ (lift-Ends Anywhere text) λ t. lift-Ends Anywhere _)
        | inr fine ↦ rw fine (relayed-Ends resolved prompt chunks ending)
      ]

  open_stream-Ends :
      (resolved : ResolvedModel) (target : String) (translated : Fields)
      → Ends Anywhere Anywhere 1 (open_stream s c resolved target translated)
  unfolding open_stream
  open_stream-Ends resolved target translated p h = (ok _, _, refl, tt, omega arith)

  ask-Ends :
      (resolved : ResolvedModel) (prompt : String)
      → Ends Anywhere Anywhere 1 (ask s c resolved prompt)
  unfolding ask
  ask-Ends resolved prompt =
      bind-Ends Anywhere Anywhere 0 1 _ _ (lift-Ends Anywhere _) λ translated.
        bind-Ends Anywhere Anywhere 1 0 _ _ (open_stream-Ends resolved _ translated)
          λ reply. relay-Ends resolved prompt reply

  read_stream-Ends : (prompt : String) → Ends Anywhere Anywhere 0 (read_stream s c prompt)
  unfolding read_stream read_cache monotonic
  read_stream-Ends prompt p h = (ok _, _, refl, tt, omega arith)

  look_up-Ends : (prompt : String) → Ends Anywhere Anywhere 0 (look_up s c prompt)
  unfolding look_up
  look_up-Ends prompt = elim (Bool-cases (is_cold (get "temperature" c.body))) [
    | inl cold ↦ rw cold (read_stream-Ends prompt)
    | inr warm ↦ rw warm (λ p h. (ok none, p, refl, tt, omega arith))
  ]

  found-Ends :
      (resolved : ResolvedModel) (prompt : String) (cached : Option String)
      → Ends Anywhere Anywhere 1
          (elim cached [ some v ↦ replay s c resolved v | none ↦ ask s c resolved prompt ])
  unfolding replay
  found-Ends resolved prompt none = ask-Ends resolved prompt
  found-Ends resolved prompt (some v) =
      bind-Ends Anywhere Anywhere 0 1 _ _ (λ p h. record_row-Ends s _ p h)
        λ u p h. (ok _, p, refl, tt, omega arith)

  stream_of-Ends : (resolved : ResolvedModel) → Ends Anywhere Anywhere 1 (stream_of s c resolved)
  unfolding stream_of
  stream_of-Ends resolved = bind-Ends Anywhere Anywhere 0 1 _ _ (lift-Ends Anywhere _) λ prompt.
      bind-Ends Anywhere Anywhere 0 1 _ _ (look_up-Ends prompt)
        λ cached. found-Ends resolved prompt cached

  -- `chat_completion_stream` ends, whatever the provider does, after one request at most.
  pub chat_completion_stream-Ends : Ends Anywhere Anywhere 1 (chat_completion_stream s c)
  unfolding chat_completion_stream
  chat_completion_stream-Ends =
      bind-Ends Anywhere Anywhere 0 1 _ _ (find_model-Ends s Anywhere c) stream_of-Ends

  cold_read-Ends :
      (prompt : String)
      → Ends Anywhere Anywhere 0 (
          if is_cold (get "temperature" c.body) then read_stream s c prompt else λ p.
          (some (ok none), p))
  cold_read-Ends prompt = elim (Bool-cases (is_cold (get "temperature" c.body))) [
    | inl cold ↦ rw cold (read_stream-Ends prompt)
    | inr warm ↦ rw warm (λ p h. (ok none, p, refl, tt, omega arith))
  ]

  cached-Ends :
      (known : Bool)
      → Ends Anywhere Anywhere 0 (
          if known
          then (lift (prompt_of s.codec c.body) >>= λ prompt.
              if is_cold (get "temperature" c.body) then read_stream s c prompt else λ p.
              (some (ok none), p))
          else λ p. (some (ok none), p))
  cached-Ends false p h = (ok none, p, refl, tt, omega arith)
  cached-Ends true p h = quiet-Ends _ _ (lift-Ends Anywhere _) cold_read-Ends p h

  -- `resolve_stream_cache` ends and sends nothing.
  pub resolve_stream_cache-Ends : Ends Anywhere Anywhere 0 (resolve_stream_cache s c)
  unfolding resolve_stream_cache
  resolve_stream_cache-Ends =
      quiet-Ends _ _ (λ p h. (_, p, refl, tt, omega arith)) λ known. cached-Ends known
