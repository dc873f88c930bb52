-- ===== src/Json/Examples.antt =====
-- Runs of the dictionary operations.
use demumumind_panel.Shared.{◌≡◌, refl, pos}
use demumumind_panel.Json.{Fields, null, int, str, end, field, get, set, delete}

abbrev sample : Fields
sample = field "a" (int (pos 1)) (field "b" (str "x") end)

set_run : set "a" null sample ≡ field "a" null (field "b" (str "x") end)
unfolding set
set_run = refl

get_run : get "b" (delete "a" sample) ≡ str "x"
unfolding get delete
get_run = refl
