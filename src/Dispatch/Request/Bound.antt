-- ===== src/Dispatch/Request/Bound.antt =====
-- A request returns after a bounded number of attempts.
use demumumind_panel.Shared.{
  ℕ, zero, suc, ◌+◌, ◌-◌, ◌*◌, ◌≤◌, ◌<◌, String, ◌≡◌, refl, sym, ap, ◌∙◌, true, Option, none, some,
  arith, leb, length, Bool-cases, inl, inr,
}
use demumumind_panel.Text.{prefix_of}
use demumumind_panel.Json.{Value}
use demumumind_panel.Errors.{Result, raise, other}
use demumumind_panel.Pool.{Reply, response, failure}
use demumumind_panel.Manager.Keys.{active_keys}
use demumumind_panel.Manager.Keys.Stable.{active_keys-pick_key, active_keys-mark_key_rate_limited}
use demumumind_panel.Dispatch.{Env, World, monotonic, send}
use demumumind_panel.Dispatch.Request.Branches.{
  again, settle_fine, settle_retry, settle_last, try_once-sent,
}
use demumumind_panel.Dispatch.Request.{
  Task, pick, try_once, should_retry, cool_down, failed, decoded, settle, do_request,
}

-- the number of keys of the provider
abbrev pub key_count : Task → World → ℕ
key_count t w = length (active_keys t.resolved.provider_id w.manager)

-- There is a result, after at most so many requests in all.
abbrev pub Returns : ℕ → Option (Result (Value × ℕ)) × World → Type 0
Returns most (o, w) = (r : Result (Value × ℕ)) × (o ≡ some r) × (length w.sent ≤ most)

try_once-keys :
    (env : Env) (t : Task) (attempt : ℕ) (w : World)
    → key_count t (try_once env t attempt w).1 ≡ key_count t w
unfolding try_once pick monotonic send
try_once-keys env t attempt w = ap length (
    active_keys-pick_key (env.clock w.readings) t.resolved.provider_id t.resolved.provider_id
      attempt w.manager)

cool_down-keys :
    (env : Env) (t : Task) (status : ℕ) (key : Option String) (w : World)
    → (key_count t (cool_down env status key w) ≡ key_count t w)
      × ((cool_down env status key w).sent ≡ w.sent)
unfolding cool_down monotonic
cool_down-keys env t status none w = (refl, refl)
cool_down-keys env t status (some key) w = ground (
  arith,
  active_keys-mark_key_rate_limited (env.clock w.readings) t.resolved.provider_id key
      (5 * env.second) w.manager,
)

again_bound :
    (env : Env) (t : Task) (attempt : ℕ) (key : Option String) (start : ℕ)
    (retry : World → Option (Result (Value × ℕ)) × World) (w : World) (status : ℕ) (text : String)
    (json : Option Value)
    → again env t attempt key start retry w status text json ≡ true
    → attempt + 1 < key_count t w
unfolding should_retry monotonic
again_bound env t attempt key start retry w status text json h = ground arith

settle-Returns :
    (env : Env) (t : Task) (attempt : ℕ) (key : Option String) (start : ℕ)
    (retry : World → Option (Result (Value × ℕ)) × World) (w : World) (n : ℕ) (reply : Reply)
    → key_count t w ≡ n
    → ((w' : World)
        → key_count t w' ≡ n
        → attempt + 1 < n
        → Returns (length w'.sent + (n - 1 - attempt)) (retry w'))
    → Returns (length w.sent + (n - 1 - attempt)) (settle env t attempt key start retry w reply)
settle-Returns env t attempt key start retry w n (failure name) count rest =
    unfold settle in (raise (other name ""), refl, omega arith)
settle-Returns env t attempt key start retry w n (response status text json) count rest =
    let latency = (monotonic env w).0 - start in
    elim (Bool-cases (leb 400 status)) [
      | inr fine ↦
          rw (settle_fine env t attempt key start retry w status text json fine)
            (decoded json latency, refl, unfold monotonic in omega arith)
      | inl bad ↦ elim (Bool-cases (again env t attempt key start retry w status text json)) [
        | inl more ↦
            let w1 : World = (monotonic env w).1 in
            let kept = cool_down-keys env t status key w1 in
            let count1 : key_count t w1 ≡ n = unfold monotonic in count in
            let lt = again_bound env t attempt key start retry w status text json more in
            let sent1 : w1.sent ≡ w.sent = unfold monotonic in refl in
            let (r, e, most) =
              rest (cool_down env status key w1) (kept.0 ∙ count1) (rw (sym count) lt) in
            rw (settle_retry env t attempt key start retry w status text json bad more)
              (r, e, omega (arith, most, ap length (kept.1 ∙ sent1)))
        | inr last ↦
            rw (settle_last env t attempt key start retry w status text json bad last)
              (failed t status (prefix_of 2000 text), refl, unfold monotonic in omega arith)
      ]
    ]

-- With fuel for as many attempts as the provider has keys left from this attempt on, and for one at
-- least, `_do_request` returns or raises, after at most that many requests: one where the provider
-- has no further key, and never more than one for each of its active keys.
pub do_request-Returns :
    (fuel : ℕ) (env : Env) (t : Task) (attempt : ℕ) (w : World)
    → key_count t w ≤ attempt + fuel
    → 0 < fuel
    → Returns (length w.sent + 1 + (key_count t w - 1 - attempt)) (do_request fuel env t attempt w)
unfolding do_request
do_request-Returns zero env t attempt w enough pos = absurd (omega arith)
do_request-Returns (suc fuel) env t attempt w enough pos =
    let ((key, reply, start), w1) = try_once env t attempt w in
    let n = key_count t w in
    let kept : key_count t w1 ≡ n = try_once-keys env t attempt w in
    let one_more : length w1.sent ≡ length w.sent + 1 =
      omega (arith, ap length (try_once-sent env t attempt w)) in
    let (r, e, most) =
      settle-Returns env t attempt key start (do_request fuel env t (attempt + 1)) w1 n reply kept
        (λ w' count lt.
          let (r', e', most') =
            do_request-Returns fuel env t (attempt + 1) w' (omega arith) (omega arith) in
          (r', e', omega arith)) in
    (r, e, omega arith)
