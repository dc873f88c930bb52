-- ===== src/Errors/Laws.antt =====
-- What every error response has in common.
use demumumind_panel.Shared.{ℕ, String, ◌≡◌, Option, none, some, arith, if◌then◌else◌}
use demumumind_panel.Text.{nonempty}
use demumumind_panel.Errors.{Exception, app, validation, http, other, handle}

-- The status that an exception carries.
abbrev pub status_of : Exception → ℕ
status_of (app e) = e.status_code
status_of (validation errors) = 422
status_of (http status detail) = status
status_of (other name text) = 500

-- Whatever the exception, the HTTP status of the response is the exception's, the body repeats it,
-- the header X-Request-ID is sent exactly when the body's request id is a text that is not empty,
-- and it then has that value.
pub handle_consistent :
    (rid : Option String) (e : Exception)
    → ((handle rid e).http_status ≡ status_of e)
      × ((handle rid e).status_code ≡ status_of e)
      × ((handle rid e).header ≡ elim (handle rid e).request_id [
        | none ↦ none
        | some s ↦ if nonempty s then some s else none
      ])
unfolding handle
handle_consistent rid (app e) = ground arith
handle_consistent rid (validation errors) = ground arith
handle_consistent rid (http status detail) = ground arith
handle_consistent rid (other name text) = ground arith
