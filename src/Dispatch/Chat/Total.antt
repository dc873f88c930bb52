-- ===== src/Dispatch/Chat/Total.antt =====
-- `chat_completion` ends.
use demumumind_panel.Shared.{
  ℕ, ◌+◌, ◌-◌, ◌≤◌, String, ◌≡◌, refl, Option, none, some, arith, length, Bool-cases, inl, inr,
  ◌==◌,
}
use demumumind_panel.Json.{Value, Fields}
use demumumind_panel.Errors.{Result, ok}
use demumumind_panel.Manager.{ResolvedModel}
use demumumind_panel.Manager.Keys.{active_keys}
use demumumind_panel.Dispatch.Call.{Setup, Panel, Chat}
use demumumind_panel.Dispatch.Call.Total.{
  Ends, Anywhere, HasKeys, weaken-Ends, quiet-Ends, bind-Ends, lift-Ends, when-Ends,
  read_cache-Ends, find_model-Ends, write_cache-Ends, record_row-Ends, request-Ends,
}
use demumumind_panel.Dispatch.Chat.{
  is_cacheable, chat_task, by_kind, record_answer, answered, hit, ask, look_up, text_completion,
  chat_completion,
}
use demumumind_panel.Dispatch.Image.{image_generation}
use demumumind_panel.Dispatch.Image.Total.{record_image-Ends}

module _ (s : Setup) (c : Chat) (resolved : ResolvedModel) where
  record_answer-Ends :
      (target : String) (answer : Fields)
      → Ends Anywhere Anywhere 0 (record_answer s c resolved target answer)
  unfolding record_answer
  record_answer-Ends target answer =
      bind-Ends Anywhere Anywhere 0 0 _ _ (lift-Ends Anywhere _)
        λ counts p h. record_row-Ends s _ p h

  hit-Ends : (cached : String) → Ends Anywhere Anywhere 0 (hit s c resolved cached)
  unfolding hit
  hit-Ends cached =
      bind-Ends Anywhere Anywhere 0 0 _ _ (λ p h. (ok tt, _, refl, tt, omega arith))
        λ u.
          bind-Ends Anywhere Anywhere 0 0 _ _ (λ p h. record_row-Ends s _ p h)
            λ u'. lift-Ends Anywhere _

  -- with an answer of the provider, nothing more is sent
  answered-Ends :
      (prompt target : String) (answer : Value) (latency : ℕ)
      → Ends Anywhere Anywhere 0 (answered s c resolved prompt target (answer, latency))
  unfolding answered
  answered-Ends prompt target answer latency = quiet-Ends _ _ (lift-Ends Anywhere _) λ fields.
      quiet-Ends _ _ (lift-Ends Anywhere _) λ output.
        quiet-Ends _ _ (lift-Ends Anywhere _) λ content.
          quiet-Ends _ _ (lift-Ends Anywhere _) λ checked.
            quiet-Ends _ _ (when-Ends _ _ (write_cache-Ends s _)) λ u.
              quiet-Ends _ _ (record_answer-Ends target fields)
                λ u'. λ p h. (ok _, p, refl, tt, omega arith)

  ask-Ends :
      (prompt : String) (k : ℕ) → Ends (HasKeys k) Anywhere (1 + (k - 1)) (ask s c resolved prompt)
  unfolding ask chat_task
  ask-Ends prompt k =
      let Keys = HasKeys k in
      weaken-Ends Keys Anywhere (0 + (1 + (k - 1) + 0)) (1 + (k - 1)) (ask s c resolved prompt)
        (omega arith)
        (bind-Ends Keys Keys 0 (1 + (k - 1) + 0) _ _ (lift-Ends Keys _) λ translated.
          bind-Ends Anywhere Keys (1 + (k - 1)) 0 _ _ (request-Ends s _ k)
            λ r. answered-Ends prompt _ r.0 r.1)

  look_up-Ends : (prompt : String) (k : ℕ) → Ends (HasKeys k) (HasKeys k) 0 (look_up s c prompt)
  unfolding look_up
  look_up-Ends prompt k = elim (Bool-cases (is_cacheable c.body)) [
    | inl cacheable ↦ rw cacheable (read_cache-Ends s k _)
    | inr other ↦ rw other (λ p h. (ok none, p, refl, h, omega arith))
  ]

  found-Ends :
      (prompt : String) (k : ℕ) (cached : Option String)
      → Ends
          (HasKeys k)
          Anywhere
          (1 + (k - 1))
          (elim cached [ some v ↦ hit s c resolved v | none ↦ ask s c resolved prompt ])
  found-Ends prompt k none p h = ask-Ends prompt k p h
  found-Ends prompt k (some v) p h =
      let (r, p', e, j, most) = hit-Ends v p tt in (r, p', e, j, omega arith)

  text_completion-Ends :
      (k : ℕ) → Ends (HasKeys k) Anywhere (1 + (k - 1)) (text_completion s c resolved)
  unfolding text_completion
  text_completion-Ends k =
      let Keys = HasKeys k in
      let n = 1 + (k - 1) in
      weaken-Ends Keys Anywhere (0 + (0 + (0 + n))) n (text_completion s c resolved) (omega arith) (
        bind-Ends Keys Keys 0 (0 + (0 + n)) _ _ (lift-Ends Keys _) λ prompt.
          bind-Ends Keys Keys 0 (0 + n) _ _ (lift-Ends Keys _) λ u.
            bind-Ends Keys Keys 0 n _ _ (look_up-Ends prompt k)
              λ cached. found-Ends prompt k cached)

module _ (s : Setup) where
  pub image_generation-Ends :
      (c : Chat) (k : ℕ) → Ends (HasKeys k) Anywhere (1 + (k - 1)) (image_generation s c)
  unfolding image_generation
  image_generation-Ends c k =
      let Keys = HasKeys k in
      let n = 1 + (k - 1) in
      weaken-Ends Keys Anywhere (0 + (n + 0)) n (image_generation s c) (omega arith) (
        bind-Ends Keys Keys 0 (n + 0) _ _ (find_model-Ends s Keys c) λ resolved.
          bind-Ends Anywhere Keys n 0 _ _ (request-Ends s _ k) λ r.
            quiet-Ends _ _ (λ p h. record_row-Ends s _ p h)
              λ u. quiet-Ends _ _ (lift-Ends Anywhere _) λ n'.
                quiet-Ends _ _ (lift-Ends Anywhere _) λ fields.
                  quiet-Ends _ _ (record_image-Ends s _ fields)
                    λ u'. λ p h. (ok _, p, refl, tt, omega arith))

  by_kind-Ends :
      (c : Chat) (k : ℕ) (resolved : ResolvedModel)
      → Ends (HasKeys k) Anywhere (1 + (k - 1)) (by_kind s c resolved)
  unfolding by_kind
  by_kind-Ends c k resolved = elim (Bool-cases (resolved.kind == "image")) [
    | inl image ↦
        let Keys = HasKeys k in
        let n = 1 + (k - 1) in
        rw image (
          weaken-Ends Keys Anywhere (0 + n) n _ (omega arith)
            (bind-Ends Keys Keys 0 n _ _ (lift-Ends Keys _) λ prompt. image_generation-Ends _ k))
    | inr text ↦ rw text (text_completion-Ends s c resolved k)
  ]

  -- On every panel where no provider has more than k active keys: `chat_completion` ends, with an
  -- answer or an exception, after at most k requests to the provider, or one if k is 0. Retries, image
  -- models and cached answers are covered.
  pub chat_completion_ends :
      (c : Chat) (k : ℕ) (p : Panel)
      → ((provider_id : String) → length (active_keys provider_id p.world.manager) ≤ k)
      → (r : Result Value) × (p' : Panel) × (chat_completion s c p ≡ (some r, p'))
        × (length p'.world.sent ≤ length p.world.sent + (1 + (k - 1)))
  unfolding chat_completion
  chat_completion_ends c k p h =
      let n = 1 + (k - 1) in
      let (r, p', e, _, most) =
        bind-Ends (HasKeys k) (HasKeys k) 0 n _ _ (find_model-Ends s (HasKeys k) c)
          (by_kind-Ends c k) p h in
      (r, p', e, omega arith)
