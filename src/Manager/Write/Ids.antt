-- ===== src/Manager/Write/Ids.antt =====
-- The ids of the table after a write of providers.
use demumumind_panel.Shared.{
  String, Bool, true, false, ◌≡◌, refl, List, [], ◌∷◌, ◌++◌, any, ◌==◌, arith, if◌then◌else◌,
}
use demumumind_panel.Manager.{ProviderRow}
use demumumind_panel.Manager.Write.{
  CreateProviderRequest, UpdateProviderRequest, clear_default, created, insert_provider, changed,
  change_row, makes_default, update_provider,
}

abbrev pub has_id : String → List ProviderRow → Bool
has_id x rows = any (λ p. p.id == x) rows

clear_default-ids :
    (x : String) (rows : List ProviderRow) → has_id x (clear_default rows) ≡ has_id x rows
unfolding clear_default
clear_default-ids x [] = refl
clear_default-ids x (p ∷ ps) = ground (arith, clear_default-ids x ps)

append-ids :
    (x : String) (rows new : List ProviderRow)
    → has_id x rows ≡ true
    → has_id x (rows ++ new) ≡ true
append-ids x [] new h = absurd (ground (arith, h))
append-ids x (p ∷ ps) new h = ground (arith, h, append-ids x ps new)

cleared-ids :
    (b : Bool) (x : String) (rows : List ProviderRow)
    → has_id x (if b then clear_default rows else rows) ≡ has_id x rows
cleared-ids true x rows = clear_default-ids x rows
cleared-ids false x rows = refl

change_row-ids :
    (id : String) (r : UpdateProviderRequest) (x : String) (rows : List ProviderRow)
    → has_id x (change_row id r rows) ≡ has_id x rows
unfolding change_row changed
change_row-ids id r x [] = refl
change_row-ids id r x (p ∷ ps) = ground (arith, change_row-ids id r x ps)

pub insert_provider-ids :
    (id : String) (r : CreateProviderRequest) (x : String) (rows : List ProviderRow)
    → has_id x rows ≡ true
    → has_id x (insert_provider id r rows) ≡ true
unfolding insert_provider
insert_provider-ids id r x rows h =
    append-ids x (if r.is_default then clear_default rows else rows) (created id r ∷ [])
      (rw (cleared-ids r.is_default x rows) h)

pub update_provider-ids :
    (id : String) (r : UpdateProviderRequest) (x : String) (rows : List ProviderRow)
    → has_id x rows ≡ true
    → has_id x (update_provider id r rows) ≡ true
unfolding update_provider
update_provider-ids id r x rows h =
    rw (change_row-ids id r x (if makes_default r.is_default then clear_default rows else rows))
      (rw (cleared-ids (makes_default r.is_default) x rows) h)
