-- ===== src/Dispatch/Request/Outcome.antt =====
-- The result of a request is that of the last reply, whatever was retried before it.
use demumumind_panel.Shared.{
  ℕ, zero, suc, ◌+◌, ◌-◌, String, ◌≡◌, Option, some, List, ◌∷◌, arith, leb, if◌then◌else◌,
  Bool-cases, inl, inr,
}
use demumumind_panel.Text.{◌+s◌, prefix_of}
use demumumind_panel.Json.{Value}
use demumumind_panel.Errors.{Result, raise, other, app, upstream_error}
use demumumind_panel.Failover.{classify, category_name}
use demumumind_panel.Pool.{HttpRequest, Reply, response, failure}
use demumumind_panel.Dispatch.{Env, World, monotonic}
use demumumind_panel.Dispatch.Request.Branches.{
  again, settle_fine, settle_retry, settle_last, try_once-sent, try_once_reply,
}
use demumumind_panel.Dispatch.Request.{
  Task, request_of, try_once, failed, decoded, settle, do_request,
}

-- What the caller gets for a reply.
abbrev pub Answers : Task → Reply → Result (Value × ℕ) → Type 0
Answers t (failure name) r = r ≡ raise (other name "")
Answers t (response status text json) r =
    let body_text = prefix_of 2000 text in
    (latency : ℕ) × (r ≡ (
      if leb 400 status
      then raise (
          app (
            upstream_error status
              ("Upstream error (" +s category_name (classify status body_text).category +s ")")
              (some (prefix_of 300 body_text)) (some t.request_id)))
      else decoded json latency))

-- The last request, sent with some key, and its reply decide the result.
abbrev pub Decided : Env → Task → World → Result (Value × ℕ) → Type 0
Decided env t w r =
    (key : Option String) × (before : List HttpRequest) × (w.sent ≡ request_of t key ∷ before)
    × Answers t (env.client before (request_of t key)) r

settle-Decided :
    (env : Env) (t : Task) (attempt : ℕ) (key : Option String) (start : ℕ)
    (retry : World → Option (Result (Value × ℕ)) × World) (w : World) (before : List HttpRequest)
    (reply : Reply) {r : Result (Value × ℕ)}
    → w.sent ≡ request_of t key ∷ before
    → env.client before (request_of t key) ≡ reply
    → ((w' : World) (r' : Result (Value × ℕ))
        → (retry w').0 ≡ some r'
        → Decided env t (retry w').1 r')
    → (settle env t attempt key start retry w reply).0 ≡ some r
    → Decided env t (settle env t attempt key start retry w reply).1 r
unfolding failed
settle-Decided env t attempt key start retry w before (failure name) sent said rest h =
    unfold settle in (key, before, sent, rw said (ground arith))
settle-Decided env t attempt key start retry w before (response status text json) {r} sent said rest
      h =
    let latency = (monotonic env w).0 - start in
    elim (Bool-cases (leb 400 status)) [
      | inr fine ↦
          let e = settle_fine env t attempt key start retry w status text json fine in
          rw e (
            key,
            before,
            unfold monotonic in sent,
            rw said (latency, rw fine (some_inj (rw e at h))),
          )
      | inl bad ↦ elim (Bool-cases (again env t attempt key start retry w status text json)) [
        | inl more ↦
            let e = settle_retry env t attempt key start retry w status text json bad more in
            rw e (rest _ r (rw e at h))
        | inr last ↦
            let e = settle_last env t attempt key start retry w status text json bad last in
            rw e (
              key,
              before,
              unfold monotonic in sent,
              rw said (latency, rw bad (some_inj (rw e at h))),
            )
      ]
    ]
  where
    some_inj : {a b : Result (Value × ℕ)} → some a ≡ some b → b ≡ a
    some_inj h = ground arith

-- Every result of `_do_request`, after any number of retries, is that of the last request, which was
-- made of the task and one key: the exception of the client; for a status from 400 on the
-- UpstreamError with that status, the category of the failure and the first 300 characters of the
-- text; otherwise the decoded body, or a JSONDecodeError where the body is no JSON.
pub do_request-Decided :
    (fuel : ℕ) (env : Env) (t : Task) (attempt : ℕ) (w : World) {r : Result (Value × ℕ)}
    → (do_request fuel env t attempt w).0 ≡ some r
    → Decided env t (do_request fuel env t attempt w).1 r
unfolding do_request
do_request-Decided zero env t attempt w h = absurd (ground arith)
do_request-Decided (suc fuel) env t attempt w h =
    let ((key, reply, start), w1) = try_once env t attempt w in
    settle-Decided env t attempt key start (do_request fuel env t (attempt + 1)) w1 w.sent reply
      (try_once-sent env t attempt w) (try_once_reply env t attempt w)
      (λ w' r' h'. do_request-Decided fuel env t (attempt + 1) w' h') h
