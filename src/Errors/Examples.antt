-- ===== src/Errors/Examples.antt =====
-- The error responses at concrete exceptions.
use demumumind_panel.Shared.{◌≡◌, none, some, refl}
use demumumind_panel.Errors.{Exception, app, handle, upstream_error}

abbrev upstream : Exception
upstream = app (unfold upstream_error in upstream_error 503 "down" none (some ""))

handle_run : (handle (some "r1") upstream).request_id ≡ some "r1"
unfolding handle upstream_error
handle_run = refl
