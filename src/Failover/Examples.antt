-- ===== src/Failover/Examples.antt =====
-- Runs of the classification at concrete answers.
use demumumind_panel.Shared.{◌≡◌, refl}
use demumumind_panel.Text.{contains, contains_any, lower, starts_with}
use demumumind_panel.Failover.{
  classify, is_auth, has_hint, billing, model_error, rate_limit, with_status,
}

quota_is_billing : (classify 429 "Quota exceeded").category ≡ billing
unfolding classify is_auth has_hint with_status contains_any contains lower starts_with
quota_is_billing = refl

plain_is_rate_limit : (classify 429 "slow down").category ≡ rate_limit
unfolding classify is_auth has_hint with_status contains_any contains lower starts_with
plain_is_rate_limit = refl

missing_is_model_error : (classify 404 "gone").category ≡ model_error
unfolding classify is_auth has_hint with_status contains_any contains lower starts_with
missing_is_model_error = refl
