-- ===== src/Manager/Resolve/Laws.antt =====
-- What `resolve` returns, and that it does not raise.
use demumumind_panel.Shared.{
  String, ◌≡◌, refl, ◌⊎◌, inl, inr, true, false, ◌&&◌, Option, none, some, List, [], ◌∷◌, arith,
  eq_iff, All, Bool-cases, Option-cases,
}
use demumumind_panel.Shared.Dict.{Dict, lookup}
use demumumind_panel.Text.{partition}
use demumumind_panel.Json.{Value}
use demumumind_panel.Errors.{ok}
use demumumind_panel.Manager.{ProviderRecord, ModelRecord, ResolvedModel, Manager}
use demumumind_panel.Manager.Reload.Keyed.{Keyed, KeyedEntry}
use demumumind_panel.Manager.Resolve.{
  resolved_from, build_resolved, target_of, is_explicit, find_explicit, explicit, is_usable,
  resolve_global, resolve_target, resolve,
}

is_explicit_sound :
    (name alias : String) (providers : Dict ProviderRecord) (pid a : String) (r : ModelRecord)
    → is_explicit name alias providers pid a r ≡ true
    → (p : ProviderRecord) × (lookup pid providers ≡ some p)
      × (p.name ≡ name)
      × (r.is_active ≡ true)
      × (a ≡ alias)
unfolding is_explicit
is_explicit_sound name alias providers pid a r h = elim (Option-cases (lookup pid providers)) [
  | inl missing ↦ absurd (ground (arith, missing))
  | inr (p, found) ↦ (
    p,
    found,
    ground (arith, found, eq_iff p.name name),
    ground (arith, found),
    ground (arith, found, eq_iff a alias),
  )
]

-- What the loop finds is active, and its provider is loaded and has the name.
find_explicit-Keyed :
    (name alias : String) (providers : Dict ProviderRecord)
    (d : List ((String × String) × ModelRecord)) {rec : ModelRecord}
    → All KeyedEntry d
    → find_explicit name alias providers d ≡ some rec
    → (p : ProviderRecord) × (lookup rec.provider_id providers ≡ some p)
      × (p.name ≡ name)
      × (rec.is_active ≡ true)
      × (rec.user_model_id ≡ alias)
unfolding find_explicit
find_explicit-Keyed name alias providers [] h e = absurd (ground arith)
find_explicit-Keyed name alias providers (((pid, a), r) ∷ d) {rec} h e =
    elim (Bool-cases (is_explicit name alias providers pid a r)) [
      | inl hit ↦
          let (p, found, named, active, aliased) =
            is_explicit_sound name alias providers pid a r hit in
          let same : r ≡ rec = ground (arith, hit) in
          (p, ground (arith, same), named, ground (arith, same), ground (arith, same))
      | inr miss ↦ find_explicit-Keyed name alias providers d h.1 (rw miss at e)
    ]

-- The record that `explicit` returns for a target stands in the tables with its provider.
explicit-Keyed :
    (target : String) (m : Manager) {rec : ModelRecord}
    → Keyed m
    → explicit target m ≡ some rec
    → (p : ProviderRecord) × (lookup rec.provider_id m.providers ≡ some p) × (rec.is_active ≡ true)
unfolding explicit
explicit-Keyed target m {rec} h e =
    let (p, found, named, active, aliased) =
      find_explicit-Keyed (partition b'/' target).0 (partition b'/' target).2 m.providers
        m.models_by_provider {rec = rec} h (ground arith) in
    (p, found, active)

build_resolved_found :
    (to_str : Value → String) (rec : ModelRecord) (target : String) (m : Manager)
    {p : ProviderRecord}
    → lookup rec.provider_id m.providers ≡ some p
    → build_resolved to_str rec target m ≡ ok (resolved_from to_str rec target p)
unfolding build_resolved
build_resolved_found to_str rec target m found = rw (found, build_resolved)

-- How a resolved model comes about: by a record of the tables that is active and whose provider is
-- loaded; the provider is active, or the record was found by the name of the provider.
abbrev pub From : (Value → String) → String → Manager → ResolvedModel → Type 0
From to_str target m r =
    (rec : ModelRecord) × (p : ProviderRecord) × (r ≡ resolved_from to_str rec target p)
    × (rec.is_active ≡ true)
    × (lookup rec.provider_id m.providers ≡ some p)
    × ((p.is_active ≡ true) × (lookup target m.models ≡ some rec) ⊎ (explicit target m ≡ some rec))

-- There is no model for the target: it names no record by its provider, and the record of the global
-- table, if there is one, or its provider is not active.
abbrev pub NoRoute : String → Manager → Type 0
NoRoute target m = (explicit target m ≡ none) × elim (lookup target m.models) [
  | none ↦ Unit {0}
  | some rec ↦ (rec.is_active && is_usable (lookup rec.provider_id m.providers)) ≡ false
]

abbrev pub Outcome : (Value → String) → String → Manager → Option ResolvedModel → Type 0
Outcome to_str target m none = NoRoute target m
Outcome to_str target m (some r) = From to_str target m r

is_usable-some :
    (o : Option ProviderRecord)
    → is_usable o ≡ true
    → (p : ProviderRecord) × (o ≡ some p) × (p.is_active ≡ true)
unfolding is_usable
is_usable-some none h = absurd (ground arith)
is_usable-some (some p) h = (p, refl, h)

resolve_global-Outcome :
    (to_str : Value → String) (target : String) (m : Manager)
    → explicit target m ≡ none
    → (o : Option ResolvedModel) × (resolve_global to_str target m ≡ ok o)
      × Outcome to_str target m o
unfolding resolve_global
resolve_global-Outcome to_str target m none_explicit =
    elim (Option-cases (lookup target m.models)) [
      | inl missing ↦ (none, rw (missing, resolve_global), (none_explicit, rw missing tt))
      | inr (rec, found) ↦
          elim (Bool-cases (rec.is_active && is_usable (lookup rec.provider_id m.providers))) [
            | inr off ↦ (none, rw (found, resolve_global, off), (none_explicit, rw found off))
            | inl on ↦
                let usable : is_usable (lookup rec.provider_id m.providers) ≡ true = ground arith in
                let active : rec.is_active ≡ true = ground arith in
                let (p, loaded, alive) =
                  is_usable-some (lookup rec.provider_id m.providers) usable in
                (
                  some (resolved_from to_str rec target p),
                  rw (found, resolve_global, on, build_resolved_found to_str rec target m loaded),
                  (rec, p, refl, active, loaded, inl (alive, found)),
                )
          ]
    ]

-- In a state that a reload leaves, where the entries stand under the ids of their records, `resolve`
-- never raises. What it returns is built from a record that is active and whose provider is loaded:
-- the record under the target in the global table, whose provider is then active, or the one that
-- the target names by its provider. It returns nothing only if the target names no record by its
-- provider and the record in the global table is missing, not active or of an inactive provider.
-- The target is the alias, or what the mapping of the key puts in its place.
pub resolve-Outcome :
    (to_str : Value → String) (user_model_id : String) (key_hash : Option String) (m : Manager)
    → Keyed m
    → (o : Option ResolvedModel) × (resolve to_str user_model_id key_hash m ≡ ok o)
      × Outcome to_str (target_of user_model_id key_hash m) m o
unfolding resolve
resolve-Outcome to_str user_model_id key_hash m h =
    let target = target_of user_model_id key_hash m in
    elim (Option-cases (explicit target m)) [
      | inl none_explicit ↦
          let (o, e, outcome) = resolve_global-Outcome to_str target m none_explicit in
          (o, rw (none_explicit, resolve_target) e, outcome)
      | inr (rec, named) ↦
          let (p, loaded, active) = explicit-Keyed target m h named in
          (
            some (resolved_from to_str rec target p),
            rw (named, resolve_target, build_resolved_found to_str rec target m loaded),
            (rec, p, refl, active, loaded, inr named),
          )
    ]

-- Every provider with the name is switched off.
abbrev pub Off : String → Manager → Type 0
Off name m =
    (pid : String) (p : ProviderRecord)
    → lookup pid m.providers ≡ some p
    → p.name ≡ name
    → p.is_active ≡ false

-- a model of a provider, built from a record for the target
abbrev pub RoutedTo : (Value → String) → String → String → Manager → ProviderRecord → Type 0
RoutedTo to_str name target m p =
    (rec : ModelRecord) × (lookup rec.provider_id m.providers ≡ some p)
    × (p.name ≡ name)
    × (resolve to_str target none m ≡ ok (some (resolved_from to_str rec target p)))
