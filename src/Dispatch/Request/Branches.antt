-- ===== src/Dispatch/Request/Branches.antt =====
-- The branches of an attempt after its reply.
use demumumind_panel.Shared.{ℕ, ◌-◌, String, ◌≡◌, refl, Bool, true, false, Option, some, ◌∷◌, leb}
use demumumind_panel.Text.{prefix_of}
use demumumind_panel.Json.{Value}
use demumumind_panel.Errors.{Result}
use demumumind_panel.Pool.{response}
use demumumind_panel.Manager.Keys.{active_keys}
use demumumind_panel.Dispatch.{Env, World, monotonic, send}
use demumumind_panel.Dispatch.Request.{
  Task, pick, request_of, try_once, should_retry, cool_down, failed, decoded, settle,
}

module _ (env : Env) (t : Task) (attempt : ℕ) (key : Option String) (start : ℕ)
    (retry : World → Option (Result (Value × ℕ)) × World) (w : World) (status : ℕ) (text : String)
    (json : Option Value) where
  -- Whether the reply is followed by a retry.
  abbrev pub again : Bool
  again =
      should_retry status (prefix_of 2000 text) attempt
        (active_keys t.resolved.provider_id (monotonic env w).1.manager)

  pub settle_fine :
      leb 400 status ≡ false
      → settle env t attempt key start retry w (response status text json)
        ≡ (some (decoded json ((monotonic env w).0 - start)), (monotonic env w).1)
  unfolding settle
  settle_fine h = rw h refl

  pub settle_retry :
      leb 400 status ≡ true
      → again ≡ true
      → settle env t attempt key start retry w (response status text json)
        ≡ retry (cool_down env status key (monotonic env w).1)
  unfolding settle
  settle_retry h h' = rw (h, h') refl

  pub settle_last :
      leb 400 status ≡ true
      → again ≡ false
      → settle env t attempt key start retry w (response status text json)
        ≡ (some (failed t status (prefix_of 2000 text)), (monotonic env w).1)
  unfolding settle
  settle_last h h' = rw (h, h') refl

module _ (env : Env) (t : Task) (attempt : ℕ) (w : World) where
  pub try_once-sent :
      (try_once env t attempt w).1.sent ≡ request_of t (try_once env t attempt w).0.0 ∷ w.sent
  unfolding try_once pick monotonic send
  try_once-sent = refl

  pub try_once_reply :
      env.client w.sent (request_of t (try_once env t attempt w).0.0)
      ≡ (try_once env t attempt w).0.1
  unfolding try_once pick monotonic send
  try_once_reply = refl
