-- ===== src/Dispatch/Request.antt =====
-- `_do_request` of app/services/dispatch.py: a request with a retry on the next key. What the
-- function awaits is not interleaved with other calls.
pub mod Branches
pub mod Outcome
pub mod Bound
use demumumind_panel.Shared.{
  ℕ, zero, suc, ◌+◌, ◌-◌, ◌*◌, String, Bool, true, false, ◌&&◌, ◌||◌, Option, none, some, List, [],
  ◌∷◌, eqb, leb, ltb, length, if◌then◌else◌,
}
use demumumind_panel.Text.{◌+s◌, prefix_of}
use demumumind_panel.Json.{Value}
use demumumind_panel.Errors.{Result, ok, raise, app, other, upstream_error}
use demumumind_panel.Failover.{FailoverDecision, classify, category_name}
use demumumind_panel.Pool.{Endpoint, HttpRequest, Reply, response, failure, request}
use demumumind_panel.Manager.{ResolvedModel, Manager, present}
use demumumind_panel.Manager.Keys.{active_keys, pick_key, mark_key_rate_limited}
use demumumind_panel.Dispatch.{Env, World, monotonic, send, provider_path, to_provider}

-- The arguments that a retry passes on.
pub record Task : Type 0 where
  pub resolved : ResolvedModel
  pub target : String
  pub body : Value
  pub request_id : String
  pub path_override : Option String
  pub request_timeout : Option ℕ

-- manager.pick_key(resolved.provider_id, attempt)
unfoldable pub pick : Env → String → ℕ → World → Option String × World
unfolding monotonic
pick env provider_id attempt w =
    let (now, w1) = monotonic env w in
    let (key, manager) = pick_key now provider_id attempt w1.manager in
    (key, record w1 { manager = manager })

-- path_override or _provider_path(target, resolved.internal_model)
unfoldable pub path_of : Task → String
path_of t = elim t.path_override [
  | none ↦ provider_path t.target t.resolved.internal_model
  | some path ↦
      if present t.path_override then path else provider_path t.target t.resolved.internal_model
]

-- what one attempt sends with a key
unfoldable pub request_of : Task → Option String → HttpRequest
request_of t key =
    request (to_provider t.resolved key) (path_of t) "POST" (some t.body) t.request_id
      t.request_timeout

-- an attempt up to the reply: the key, the reply and the time before
unfoldable pub try_once : Env → Task → ℕ → World → (Option String × Reply × ℕ) × World
try_once env t attempt w =
    let (key, w1) = pick env t.resolved.provider_id attempt w in
    let (start, w2) = monotonic env w1 in
    let (reply, w3) = send env (request_of t key) w2 in ((key, reply, start), w3)

-- the tests on the way to a retry
unfoldable pub should_retry : ℕ → String → ℕ → List String → Bool
should_retry status text attempt keys =
    ((classify status text).rotate_key || eqb status 429)
    && (ltb 1 (length keys) && ltb attempt (length keys - 1))

-- the cool-down of 5 seconds on a 429
unfoldable pub cool_down : Env → ℕ → Option String → World → World
cool_down env status none w = w
cool_down env status (some key) w =
    let (now, w1) = monotonic env w in
    if eqb status 429 && present (some key)
    then record w1 { manager = mark_key_rate_limited now key (5 * env.second) w1.manager }
    else w

-- the error that is raised in the end
unfoldable pub failed : Task → ℕ → String → Result (Value × ℕ)
failed t status text = raise (
    app (
      upstream_error status
        ("Upstream error (" +s category_name (classify status text).category +s ")")
        (some (prefix_of 300 text)) (some t.request_id)))

-- `resp.json()`
unfoldable pub decoded : Option Value → ℕ → Result (Value × ℕ)
decoded none latency = raise (other "JSONDecodeError" "")
decoded (some value) latency = ok (value, latency)

-- the rest of an attempt, from the reply on, with the retry as a function of the world
unfoldable pub settle :
    Env
    → Task
    → ℕ
    → Option String
    → ℕ
    → (World → Option (Result (Value × ℕ)) × World)
    → World
    → Reply
    → Option (Result (Value × ℕ)) × World
settle env t attempt key start retry w (failure name) = (some (raise (other name "")), w)
settle env t attempt key start retry w (response status text json) =
    let (stop, w1) = monotonic env w in
    let body_text = prefix_of 2000 text in
    let retried = retry (cool_down env status key w1) in
    if leb 400 status
    then (if should_retry status body_text attempt (active_keys t.resolved.provider_id w1.manager)
        then retried
        else (some (failed t status body_text), w1))
    else (some (decoded json (stop - start)), w1)

-- `_do_request`, on the number of attempts that may follow; `none` is that it was too small
unfoldable pub do_request : ℕ → Env → Task → ℕ → World → Option (Result (Value × ℕ)) × World
do_request zero env t attempt w = (none, w)
do_request (suc fuel) env t attempt w =
    let ((key, reply, start), w1) = try_once env t attempt w in
    settle env t attempt key start (do_request fuel env t (attempt + 1)) w1 reply
