-- ===== src/Dispatch/Image/Total.antt =====
-- Recording an image ends.
use demumumind_panel.Shared.{ap, String, ◌≡◌, refl, Option, none, some, length, arith}
use demumumind_panel.Json.{Fields}
use demumumind_panel.Errors.{Result, ok, raise}
use demumumind_panel.Dispatch.Call.{Setup, Panel, ImageRow}
use demumumind_panel.Dispatch.Call.Total.{Ends, Anywhere}
use demumumind_panel.Dispatch.Image.{first_payload, stored, saved, recorded, record_image}
use demumumind_panel.Dispatch.{World}

module _ (s : Setup) where
  stored-world : (row : ImageRow) (p : Panel) → (stored s row p).world ≡ p.world
  unfolding stored
  stored-world row p = ground arith

  saved-world :
      (row : String → ImageRow) (r : Result String) (p : Panel) → (saved s row r p).world ≡ p.world
  unfolding saved
  saved-world row (raise e) p = refl
  saved-world row (ok path) p = stored-world (row path) p

  recorded-world :
      (row : String → ImageRow) (o : Option String) (p : Panel)
      → (recorded s row o p).world ≡ p.world
  unfolding recorded
  recorded-world row none p = refl
  recorded-world row (some b64) p = saved-world row (s.save_image (length p.images) b64) p

  pub record_image-Ends :
      (row : String → ImageRow) (answer : Fields)
      → Ends Anywhere Anywhere 0 (record_image s row answer)
  unfolding record_image
  record_image-Ends row answer p h =
      let o = first_payload answer in
      (
        ok tt,
        recorded s row o p,
        refl,
        tt,
        omega (arith, ap (λ (w : World). length w.sent) (recorded-world row o p)),
      )
