-- ===== src/Guardrails/Examples.antt =====
-- The guardrails at concrete rules; a pattern is a text that must be part of the input.
use demumumind_panel.Shared.{◌≡◌, refl, none, some, [], ◌∷◌}
use demumumind_panel.Text.{contains, nonempty}
use demumumind_panel.Errors.{ok, raise, app}
use demumumind_panel.Guardrails.{
  GuardrailService, blocked, check_rules, validate_input, validate_output,
}
use demumumind_panel.Guardrails.Laws.{first_stop, validate_lem}

abbrev secrets : GuardrailService
secrets = record {
  regex_rules =
      record {
        name = "log";
        pattern = record { source = "key"; search = λ t. contains t "key" };
        action = "log";
      }
      ∷ record {
        name = "secret";
        pattern = record { source = "key"; search = λ t. contains t "key" };
        action = "block";
      }
      ∷ [];
  json_schema = none;
}

validate_lem_example :
    (validate_input secrets (some "my key") ≡ elim (first_stop "my key" secrets.regex_rules) [
      | none ↦ ok tt
      | some r ↦ raise (app (blocked r.name))
    ])
    × (validate_output secrets (some "my key") ≡ elim (first_stop "my key" secrets.regex_rules) [
      | none ↦ ok "my key"
      | some r ↦ raise (app (blocked r.name))
    ])
unfolding contains nonempty
validate_lem_example = validate_lem secrets "my key" refl

validate_run : validate_input secrets (some "my key") ≡ raise (app (blocked "secret"))
unfolding validate_input contains nonempty check_rules
validate_run = refl
