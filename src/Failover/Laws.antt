-- ===== src/Failover/Laws.antt =====
-- What the fields of a decision say about each other and about the failure, and the bounds of the
-- back-off.
use native.Mathlib.Nat.{pow-suc}
use native.Mathlib.Numerals.{towards_suc}
use demumumind_panel.Shared.{◌-◌, sym, ap, ◌∙◌, ltb, Bool-cases, if◌then◌else◌, inl, inr}
use demumumind_panel.Shared.{
  ℕ, zero, suc, ◌+◌, ◌*◌, ◌^◌, ◌≤◌, ◌<◌, String, ◌≡◌, ◌↔◌, Bool, true, false, arith, refl,
}
use demumumind_panel.Failover.{
  Category, auth, billing, rate_limit, timeout, model_error, unknown, has_hint, is_auth, classify,
  backoff_ms, billing_hints,
}

-- The recovery actions, as a table over the category alone.
abbrev pub rotates : Category → Bool
rotates auth = true
rotates billing = true
rotates rate_limit = true
rotates _ = false

abbrev pub retries : Category → Bool
retries auth = false
retries billing = false
retries model_error = false
retries _ = true

abbrev pub pause : Category → ℕ
pause rate_limit = 500
pause timeout = 250
pause unknown = 200
pause _ = 0

abbrev pub alerts : Category → Bool
alerts billing = true
alerts _ = false

-- For every status and body, the actions of the decision are a function of its category: keys are
-- rotated exactly on auth, billing and rate-limit failures, the same key is retried exactly on
-- rate-limit, timeout, context and unknown failures, only billing failures raise an alert, and the
-- pause is 500, 250 or 200 ms on rate-limit, timeout and unknown failures and 0 otherwise.
pub classify_actions :
    (status : ℕ) (text : String)
    → ((classify status text).rotate_key ≡ rotates (classify status text).category)
      × ((classify status text).retry_same_key ≡ retries (classify status text).category)
      × ((classify status text).alert ≡ alerts (classify status text).category)
      × ((classify status text).backoff_ms ≡ pause (classify status text).category)
unfolding classify
classify_actions status text = ground arith

-- A failure is classed as a rate limit exactly when its status is 429 and its body shows neither an
-- authentication failure nor a billing hint: a 429 that mentions a quota is a billing failure.
pub classify-rate_limit_iff :
    (status : ℕ) (text : String)
    → ((classify status text).category ≡ rate_limit)
      ↔ ((status ≡ 429) × (is_auth status text ≡ false) × (has_hint text billing_hints ≡ false))
unfolding classify
classify-rate_limit_iff status text = ground arith

pow_pos : (n : ℕ) → 1 ≤ 2 ^ n
pow_pos zero = omega arith
pow_pos (suc n) = rw pow-suc (omega (arith, pow_pos n))

pow_six : (n : ℕ) → 2 ^ (n + 6) ≡ 64 * 2 ^ n
pow_six n = simp towards_suc (omega arith)

backoff_small : (n : ℕ) → n < 6 → backoff_ms n ≡ 500 * 2 ^ n
unfolding backoff_ms
backoff_small zero h = refl
backoff_small (suc zero) h = refl
backoff_small (suc (suc zero)) h = refl
backoff_small (suc (suc (suc zero))) h = refl
backoff_small (suc (suc (suc (suc zero)))) h = refl
backoff_small (suc (suc (suc (suc (suc zero))))) h = refl
backoff_small (suc (suc (suc (suc (suc (suc n)))))) h = absurd (omega arith)

backoff_large : (n : ℕ) → 6 ≤ n → backoff_ms n ≡ 30000
unfolding backoff_ms
backoff_large n h =
    let e : n - 6 + 6 ≡ n = omega arith in
    let p : 2 ^ n ≡ 64 * 2 ^ (n - 6) = ap (λ m. 2 ^ m) (sym e) ∙ pow_six (n - 6) in
    omega (arith, p, pow_pos (n - 6))

-- The back-off is 500 ms, doubled with each of the attempts up to the fifth, and 30 s from the sixth
-- attempt on.
pub backoff_ms_lem : (n : ℕ) → backoff_ms n ≡ (if ltb n 6 then 500 * 2 ^ n else 30000)
backoff_ms_lem n = elim (Bool-cases (ltb n 6)) [
  | inl small ↦ rw small (backoff_small n (ground arith))
  | inr large ↦ rw large (backoff_large n (ground arith))
]
