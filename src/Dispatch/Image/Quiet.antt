-- ===== src/Dispatch/Image/Quiet.antt =====
-- `_record_image_generation` of app/services/dispatch.py leaves the rows of usage as they are.
use demumumind_panel.Shared.{String, ◌≡◌, refl, Option, none, some, length, Bool-cases, inl, inr}
use demumumind_panel.Json.{Fields}
use demumumind_panel.Errors.{Result, ok, raise}
use demumumind_panel.Dispatch.Call.{Setup, Panel, ImageRow}
use demumumind_panel.Dispatch.Call.Runs.{Keeps}
use demumumind_panel.Dispatch.Image.{stored, saved, recorded, first_payload, record_image}

stored-usage : (s : Setup) (row : ImageRow) (p : Panel) → (stored s row p).usage ≡ p.usage
unfolding stored
stored-usage s row p = elim (Bool-cases (s.image_commits (length p.images))) [
  | inl stays ↦ rw stays refl
  | inr lost ↦ rw lost refl
]

saved-usage :
    (s : Setup) (row : String → ImageRow) (r : Result String) (p : Panel)
    → (saved s row r p).usage ≡ p.usage
unfolding saved
saved-usage s row (ok path) p = stored-usage s (row path) p
saved-usage s row (raise e) p = refl

recorded-usage :
    (s : Setup) (row : String → ImageRow) (o : Option String) (p : Panel)
    → (recorded s row o p).usage ≡ p.usage
unfolding recorded
recorded-usage s row none p = refl
recorded-usage s row (some b64) p = saved-usage s row _ p

pub record_image-Keeps :
    (s : Setup) (row : String → ImageRow) (answer : Fields)
    → Keeps (λ p. p.usage) (record_image s row answer)
unfolding record_image
record_image-Keeps s row answer p = recorded-usage s row (first_payload answer) p
