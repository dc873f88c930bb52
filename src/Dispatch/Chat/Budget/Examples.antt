-- ===== src/Dispatch/Chat/Budget/Examples.antt =====
-- A call on the sample panel under the default agent type, and the budget of the key that makes it.
use demumumind_panel.Shared.{String, ◌≡◌, refl, false, [], ◌∷◌, ◌==◌, ℤ, pos}
use demumumind_panel.Shared.Dict.{Dict}
use demumumind_panel.Text.{◌+s◌, prefix_of}
use demumumind_panel.Usage.{key_agent_type, check_budget}
use demumumind_panel.Dispatch.Samples.{setup, panel, chat_of}
use demumumind_panel.Dispatch.Chat.{chat_completion}
use demumumind_panel.Dispatch.Chat.Budget.{chat_completion-check_budget}

abbrev budgets : Dict ℤ
budgets = ("t", pos 6) ∷ []

abbrev dollars : ℤ → String
dollars b = "6"

other_agent : ("default" == key_agent_type "t") ≡ false
unfolding key_agent_type prefix_of ◌+s◌
other_agent = refl

chat_completion-check_budget_example :
    check_budget dollars budgets "t" (chat_completion setup (chat_of "a") panel).1.usage
    ≡ check_budget dollars budgets "t" panel.usage
chat_completion-check_budget_example =
    chat_completion-check_budget setup (chat_of "a") dollars budgets "t" panel other_agent
