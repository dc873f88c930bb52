-- ===== src/Guardrails.antt =====
-- app/services/guardrails.py: the regular-expression rules on prompts and answers. `re.compile` and
-- `Pattern.search` are parameters: a compiled pattern is a test on texts.
pub mod Laws
mod Examples
use demumumind_panel.Shared.{
  String, Bool, true, false, not, Option, none, some, List, [], ◌∷◌, ◌++◌, map, ◌==◌, if◌then◌else◌,
}
use demumumind_panel.Text.{◌+s◌, nonempty}
use demumumind_panel.Json.{Value}
use demumumind_panel.Errors.{AppError, Result, ok, raise, app, ◌>>=◌, ◌>>◌}

pub record Pattern : Type 0 where
  pub source : String
  pub search : String → Bool

pub record Rule : Type 0 where
  pub name : String
  pub pattern : Pattern
  pub action : String

pub record GuardrailService : Type 0 where
  pub regex_rules : List Rule
  pub json_schema : Option Value

abbrev pub init : GuardrailService
init = record { regex_rules = []; json_schema = none }

-- `add_regex_rule`; `compile` is `re.compile`, `none` where that raises `re.error`.
unfoldable pub add_regex_rule :
    (String → Option Pattern) → String → String → String → GuardrailService → GuardrailService
add_regex_rule compile name pattern action g = elim (compile pattern) [
  | none ↦ g
  | some p ↦ record g {
    regex_rules = g.regex_rules ++ record { name = name; pattern = p; action = action } ∷ [];
  }
]

-- `set_json_schema`; `check` is whether `Draft7Validator.check_schema` accepts the schema.
unfoldable pub set_json_schema : (Value → Bool) → Value → GuardrailService → GuardrailService
set_json_schema check schema g =
    if check schema then record g { json_schema = some schema } else record g { json_schema = none }

unfoldable pub blocked : String → AppError
blocked name = record {
  status_code = 422;
  code = "content_blocked";
  message = "Content blocked by rule: " +s name;
  detail = none;
  request_id = none;
}

-- the loop of `_check_regex`
unfoldable pub check_rules : String → List Rule → Result (Unit {0})
check_rules text [] = ok tt
check_rules text (r ∷ rules) =
    let rest = check_rules text rules in
    if not (r.action == "block")
    then rest
    else if r.pattern.search text
    then raise (app (blocked r.name))
    else rest

-- `_check_regex`: no text and the empty text pass.
unfoldable pub check_regex : GuardrailService → Option String → Result (Unit {0})
check_regex g none = ok tt
check_regex g (some text) = if nonempty text then check_rules text g.regex_rules else ok tt

unfoldable pub validate_input : GuardrailService → Option String → Result (Unit {0})
unfolding check_regex
validate_input g text = check_regex g text

unfoldable pub validate_output : GuardrailService → Option String → Result String
unfolding check_regex
validate_output g text = do check_regex g text; ok (elim text [ none ↦ "" | some t ↦ t ])

-- `rules`
unfoldable pub rules : GuardrailService → List (String × String × String)
rules g = map (λ r. (r.name, r.pattern.source, r.action)) g.regex_rules
