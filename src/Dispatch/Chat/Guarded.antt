-- ===== src/Dispatch/Chat/Guarded.antt =====
-- What the guardrails see of a call.
use demumumind_panel.Shared.{String, ◌≡◌, false, some, ◌==◌}
use demumumind_panel.Errors.{Exception, ok, raise}
use demumumind_panel.Guardrails.{validate_input}
use demumumind_panel.Manager.{ResolvedModel}
use demumumind_panel.Dispatch.Prompt.{prompt_of}
use demumumind_panel.Dispatch.Call.{Setup, Panel, ◌>>=◌, Chat, find_model}
use demumumind_panel.Dispatch.Call.Runs.{Runs}
use demumumind_panel.Dispatch.Chat.{text_completion, by_kind, chat_completion}

-- A prompt that a rule of the guardrails blocks: the call on a model that is no image model raises
-- what the guardrails raise, and leaves the panel as it was, with nothing sent, stored or recorded.
pub chat_completion_blocked :
    (s : Setup) (c : Chat) (p : Panel) (resolved : ResolvedModel) (prompt : String) (e : Exception)
    → Runs (find_model s c) p resolved p
    → (resolved.kind == "image") ≡ false
    → prompt_of s.codec c.body ≡ ok prompt
    → validate_input s.guardrail (some prompt) ≡ raise e
    → chat_completion s c p ≡ (some (raise e), p)
unfolding chat_completion by_kind text_completion ◌>>=◌
chat_completion_blocked s c p resolved prompt e found kind asked blocked =
    rw found (rw kind (rw asked (rw blocked)))
