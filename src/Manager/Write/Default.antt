-- ===== src/Manager/Write/Default.antt =====
-- At most one provider is the default one.
use demumumind_panel.Shared.{
  ℕ, ◌+◌, ◌≤◌, String, ◌≡◌, refl, Bool, Option, none, some, List, [], ◌∷◌, ◌++◌, ◌==◌, arith,
  if◌then◌else◌, Bool-cases, inl, inr,
}
use demumumind_panel.Manager.{ProviderRow}
use demumumind_panel.Manager.Write.{
  CreateProviderRequest, UpdateProviderRequest, clear_default, created, insert_provider, or_old,
  changed, change_row, makes_default, update_provider,
}

-- the number of default providers
abbrev pub defaults : List ProviderRow → ℕ
defaults [] = 0
defaults (p ∷ ps) = (if p.is_default then 1 else 0) + defaults ps

defaults-clear_default : (ps : List ProviderRow) → defaults (clear_default ps) ≡ 0
unfolding clear_default
defaults-clear_default [] = refl
defaults-clear_default (p ∷ ps) = omega (arith, defaults-clear_default ps)

defaults-append :
    (ps : List ProviderRow) (p : ProviderRow)
    → defaults (ps ++ p ∷ []) ≡ defaults ps + (if p.is_default then 1 else 0)
defaults-append [] p = ground arith
defaults-append (q ∷ ps) p = omega (arith, defaults-append ps p)

defaults-created :
    (id : String) (r : CreateProviderRequest) → (created id r).is_default ≡ r.is_default
unfolding created
defaults-created id r = refl

defaults-change_row :
    (id : String) (r : UpdateProviderRequest) (ps : List ProviderRow)
    → defaults (change_row id r ps) ≤ defaults ps + (if makes_default r.is_default then 1 else 0)
unfolding change_row changed or_old makes_default
defaults-change_row id r [] = ground arith
defaults-change_row id r (p ∷ ps) = elim (Bool-cases (p.id == id)) [
  | inl here ↦ rw (here, change_row) (one r.is_default p.is_default (defaults ps))
  | inr there ↦ rw (there, change_row) (omega (arith, defaults-change_row id r ps))
]
  where
    one :
        (o : Option Bool) (b : Bool) (n : ℕ)
        → (if or_old o b then 1 else 0) + n
          ≤ (if b then 1 else 0) + n + (if makes_default o then 1 else 0)
    one none b n = ground arith
    one (some c) b n = ground arith

-- Adding and updating a provider keep it so that at most one provider is the default one.
pub one_default :
    (id id' : String) (r : CreateProviderRequest) (u : UpdateProviderRequest)
    (rows : List ProviderRow)
    → defaults rows ≤ 1
    → (defaults (insert_provider id r rows) ≤ 1) × (defaults (update_provider id' u rows) ≤ 1)
unfolding insert_provider update_provider
one_default id id' r u rows h = (
  rw
      (
        defaults-append (if r.is_default then clear_default rows else rows) (created id r),
        defaults-created id r,
      )
      (elim (Bool-cases r.is_default) [
        | inl new ↦ rw new (omega (arith, defaults-clear_default rows))
        | inr old ↦ rw old (omega arith)
      ]),
  elim (Bool-cases (makes_default u.is_default)) [
    | inl new ↦
        let most = defaults-change_row id' u (clear_default rows) in
        rw new (ground (arith, most, new, defaults-clear_default rows))
    | inr old ↦ let most = defaults-change_row id' u rows in rw old (ground (arith, most, old))
  ],
)
