-- ===== src/Guardrails/Laws.antt =====
-- Which texts the guardrails let through, and which rule they name.
use demumumind_panel.Shared.{
  String, ◌≡◌, refl, ap, inl, inr, Bool, true, ◌&&◌, Option, none, some, List, [], ◌∷◌, ◌++◌, arith,
  ◌==◌, Option-cases, if◌then◌else◌,
}
use demumumind_panel.Text.{nonempty}
use demumumind_panel.Errors.{ok, raise, app}
use demumumind_panel.Guardrails.{
  Pattern, Rule, GuardrailService, add_regex_rule, blocked, check_rules, validate_input,
  validate_output,
}

-- A rule stops a text if its action is "block" and its pattern is found.
abbrev pub stops : String → Rule → Bool
stops text r = (r.action == "block") && r.pattern.search text

-- The first rule of a list that stops the text.
abbrev pub first_stop : String → List Rule → Option Rule
first_stop text [] = none
first_stop text (r ∷ rules) = if stops text r then some r else first_stop text rules

check_rules-first :
    (text : String) (rules : List Rule)
    → check_rules text rules
      ≡ elim (first_stop text rules) [ none ↦ ok tt | some r ↦ raise (app (blocked r.name)) ]
unfolding check_rules
check_rules-first text [] = refl
check_rules-first text (r ∷ rules) = ground (arith, check_rules-first text rules)

-- A text that is not empty is refused, as input and as output, with a 422 error that names the
-- first rule, in the order in which the rules were added, whose action is "block" and whose pattern
-- is found in it; without such a rule it passes, and an output is returned unchanged.
pub validate_lem :
    (g : GuardrailService) (text : String)
    → nonempty text ≡ true
    → (validate_input g (some text) ≡ elim (first_stop text g.regex_rules) [
      | none ↦ ok tt
      | some r ↦ raise (app (blocked r.name))
    ])
      × (validate_output g (some text) ≡ elim (first_stop text g.regex_rules) [
        | none ↦ ok text
        | some r ↦ raise (app (blocked r.name))
      ])
unfolding validate_input validate_output
validate_lem g text h = ground (arith, check_rules-first text g.regex_rules)

first_stop-append :
    (text : String) (rules more : List Rule)
    → first_stop text (rules ++ more)
      ≡ elim (first_stop text rules) [ none ↦ first_stop text more | some r ↦ some r ]
first_stop-append text [] more = refl
first_stop-append text (r ∷ rules) more = ground (arith, first_stop-append text rules more)

check_rules-append :
    (text : String) (rules more : List Rule) {r : Rule}
    → first_stop text rules ≡ some r
    → check_rules text (rules ++ more) ≡ check_rules text rules
check_rules-append text rules more h = ground (
  arith,
  check_rules-first text (rules ++ more),
  check_rules-first text rules,
  first_stop-append text rules more,
)

-- Adding a rule never lets a text through that was refused before, and keeps the rule that the
-- refusal names, whether the pattern of the new rule compiles or not.
pub add_regex_rule_keeps :
    (compile : String → Option Pattern) (name pattern action text : String) (g : GuardrailService)
    {r : Rule}
    → first_stop text g.regex_rules ≡ some r
    → validate_input (add_regex_rule compile name pattern action g) (some text)
      ≡ validate_input g (some text)
unfolding validate_input add_regex_rule
add_regex_rule_keeps compile name pattern action text g h = elim (Option-cases (compile pattern)) [
  | inl bad ↦ rw (bad, add_regex_rule)
  | inr (p, good) ↦
      rw (good, add_regex_rule)
        (ap (λ t. if nonempty text then t else ok tt) (check_rules-append text g.regex_rules _ h))
]
