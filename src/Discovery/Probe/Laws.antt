-- ===== src/Discovery/Probe/Laws.antt =====
-- How many requests a test makes, and when a model is reported as rate limited.
use demumumind_panel.Shared.{
  ℕ, zero, suc, ◌+◌, ◌≤◌, String, ◌≡◌, refl, Bool, true, false, Option, none, some, arith, eqb,
  length, Bool-cases, ◌⊎◌, inl, inr,
}
use demumumind_panel.Json.{Value}
use demumumind_panel.Pool.{Endpoint, HttpRequest, Reply, response, failure, request}
use demumumind_panel.Dispatch.{Env, World, monotonic, send}
use demumumind_panel.Discovery.{is_image_model}
use demumumind_panel.Discovery.Probe.{
  TestCategory, fine, rate_limited, retry_429, status_of, concluded, test_body, test_provider_model,
}

-- The reply is a response with status 429.
abbrev is_429 : Reply → Bool
is_429 (failure name) = false
is_429 (response status text json) = eqb status 429

-- There are at most so many more requests, and a last reply with status 429 comes after all of them.
abbrev Spent : ℕ → World → Reply × World → Type 0
Spent left w (reply, w') =
    (length w'.sent ≤ length w.sent + left)
    × (is_429 reply ≡ true → length w'.sent ≡ length w.sent + left)

send-length :
    (env : Env) (r : HttpRequest) (w : World) → length (send env r w).1.sent ≡ length w.sent + 1
unfolding send
send-length env r w = omega arith

retry_429-Spent :
    (env : Env) (r : HttpRequest) (left : ℕ) (reply : Reply) (w : World)
    → Spent left w (retry_429 env r left (reply, w))
unfolding retry_429
retry_429-Spent env r left (failure name) w = (omega arith, λ h. absurd (ground arith))
retry_429-Spent env r zero (response status text json) w = (omega arith, λ h. omega arith)
retry_429-Spent env r (suc left) (response status text json) w =
    elim (Bool-cases (eqb status 429)) [
      | inl limited ↦
          let next = send env r w in
          let (most, all) = retry_429-Spent env r left next.0 next.1 in
          let one = send-length env r w in
          rw (limited, retry_429) (omega (arith, most, one), λ h. omega (arith, all h, one))
      | inr other ↦ rw (other, retry_429) (omega arith, λ h. absurd (ground arith))
    ]

abbrev pub is_limited : TestCategory → Bool
is_limited rate_limited = true
is_limited fine = false
is_limited _ = false

concluded_sent :
    (parsed : String → Option Value) (env : Env) (model : String) (start : ℕ) (r : Reply × World)
    → ((concluded parsed env model start r).1.sent ≡ r.1.sent)
      × ((is_limited (concluded parsed env model start r).0.category ≡ false) ⊎ (is_429 r.0 ≡ true))
unfolding concluded monotonic status_of
concluded_sent parsed env model start (failure name, w) = (refl, inl refl)
concluded_sent parsed env model start (response status text json, w) =
    elim (Bool-cases (eqb status 429)) [
      | inl limited ↦ (refl, inr limited)
      | inr other ↦ (refl, inl (ground (arith, other)))
    ]

-- A test makes at most four requests and none for an image model, and either the model is not
-- reported as rate limited or all four were made.
pub test_provider_model_bound :
    (parsed : String → Option Value) (env : Env) (provider : Endpoint) (model rid : String)
    (w : World)
    → (length (test_provider_model parsed env provider model rid w).1.sent ≤ length w.sent + 4)
      × ((is_limited (test_provider_model parsed env provider model rid w).0.category ≡ false)
          ⊎ (length (test_provider_model parsed env provider model rid w).1.sent
              ≡ length w.sent + 4))
      × ((is_image_model model ≡ false)
          ⊎ ((test_provider_model parsed env provider model rid w).1.sent ≡ w.sent))
unfolding test_provider_model
test_provider_model_bound parsed env provider model rid w =
    elim (Bool-cases (is_image_model model)) [
      | inl image ↦ rw (image, test_provider_model) (omega arith, inl refl, inr refl)
      | inr chat ↦
          let (path, body) = test_body provider.protocol model in
          let r = request provider path "POST" (some body) rid none in
          let (start, w1) = monotonic env w in
          let first = send env r w1 in
          let last = retry_429 env r 3 first in
          let (most, all) = retry_429-Spent env r 3 first.0 first.1 in
          let one = send-length env r w1 in
          let same : length w1.sent ≡ length w.sent = unfold monotonic in refl in
          let (sent, limited) = concluded_sent parsed env model start last in
          rw (chat, test_provider_model)
            (rw sent (
              omega (arith, most, one, same),
              elim limited [ inl off ↦ inl off | inr on ↦ inr (omega (arith, all on, one, same)) ],
              inl refl,
            ))
    ]
