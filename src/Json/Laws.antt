-- ===== src/Json/Laws.antt =====
-- The laws of a key that is set.
use demumumind_panel.Shared.{
  String, ◌≡◌, refl, ◌∙◌, false, some, ◌==◌, eq_iff, eq_refl, arith, if◌then◌else◌,
}
use demumumind_panel.Json.{Value, Fields, end, field, get?, get, get_or, set}

pub get?-set :
    (k j : String) (v : Value) (d : Fields)
    → get? j (set k v d) ≡ (if k == j then some v else get? j d)
unfolding get? set
get?-set k j v end = refl
get?-set k j v (field i w d) = ground (arith, eq_iff k j, eq_iff i k, eq_iff i j, get?-set k j v d)

pub get?-set_self : (k : String) (v : Value) (d : Fields) → get? k (set k v d) ≡ some v
get?-set_self k v d = simp (get?-set, eq_refl)

module _ (k j : String) (v : Value) (d : Fields) (apart : (k == j) ≡ false) where
  pub get?-set_ne : get? j (set k v d) ≡ get? j d
  get?-set_ne = get?-set k j v d ∙ rw apart

  pub get-set_ne : get j (set k v d) ≡ get j d
  unfolding get
  get-set_ne = rw (get?-set_ne, get)

  pub get_or-set_ne : (w : Value) → get_or j w (set k v d) ≡ get_or j w d
  unfolding get_or
  get_or-set_ne w = rw (get?-set_ne, get_or)
