-- ===== src/Cleanup/Laws.antt =====
-- A cleanup deletes no model and no group that something refers to.
use mathlib.Core.Path.{ap₂}
use demumumind_panel.Shared.{
  ◌&&◌, ℕ, String, ◌≡◌, refl, sym, ap, ◌∙◌, Bool, true, not, ◌||◌, Option, List, [], ◌∷◌, ◌==◌,
  eq_iff, arith, any, keep, map, Bool-cases, Option-cases, inl, inr, pos,
}
use demumumind_panel.Json.{Fields, get, get_or, int, truthy}
use demumumind_panel.Errors.{Result, Exception, ok, raise}
use demumumind_panel.Manager.{ProviderRow, ModelRow}
use demumumind_panel.Manager.Reload.Priority.{Result-cases}
use demumumind_panel.Dispatch.{World}
use demumumind_panel.Discovery.Probe.{DiscoveredModelStatus}
use demumumind_panel.Discovery.Merge.Laws.{bind_ok, ok_inj}
use demumumind_panel.Cleanup.{
  Tools, load_meta, find_provider, tested, passes, check_model, check_models, then_cons,
  mark_missing, mark_all, mark_providers, sweep_providers,
}
use demumumind_panel.Cleanup.Run.{
  GroupRow, ApiKeyRow, Tables, refers_to, is_used, keep_groups, finish, run_cleanup,
}

-- Some group of a list has the id.
abbrev pub has_group : String → List GroupRow → Bool
has_group id groups = any (λ g. g.id == id) groups

abbrev pub Exists : String → List GroupRow → Type 0
Exists id groups = has_group id groups ≡ true

abbrev pub implies : Bool → Bool → Bool
implies a b = not a || b

-- Whether a group or a key refers to an id.
abbrev pub is_referred : String → List GroupRow → List ApiKeyRow → Bool
is_referred id groups keys =
    any (λ h. refers_to id h.parent_group_id) groups || any (λ k. refers_to id k.group_id) keys

keep_groups-Exists :
    (id : String) (groups gs : List GroupRow) (keys : List ApiKeyRow)
    → is_referred id groups keys ≡ true
    → Exists id gs
    → Exists id (keep (is_used groups keys) gs)
keep_groups-Exists id groups [] keys used h = h
keep_groups-Exists id groups (g ∷ gs) keys used h = elim (Bool-cases (g.id == id)) [
  | inl same ↦
      let e : g.id ≡ id = (eq_iff g.id id).0 same in
      let kept : is_used groups keys g ≡ true =
        unfold is_used in ap (λ i. is_referred i groups keys) e ∙ used in
      rw (kept, keep) (rw (same, any) refl)
  | inr other ↦
      let rest = keep_groups-Exists id groups gs keys used (rw (other, any) at h) in
      elim (Bool-cases (is_used groups keys g)) [
        | inl kept ↦ rw (kept, keep) (rw (other, any) rest)
        | inr dropped ↦ rw (dropped, keep) rest
      ]
]

kept_if_used :
    (id : String) (groups : List GroupRow) (keys : List ApiKeyRow)
    → implies
        (is_referred id groups keys && has_group id groups)
        (has_group id (keep (is_used groups keys) groups))
      ≡ true
kept_if_used id groups keys = elim (Bool-cases (is_referred id groups keys)) [
  | inr unused ↦ rw unused refl
  | inl used ↦ elim (Bool-cases (has_group id groups)) [
    | inr missing ↦ rw (used, missing) refl
    | inl there ↦ rw (used, there) (keep_groups-Exists id groups groups keys used there)
  ]
]

implied_by_part : (a b : Bool) → implies (a && b) b ≡ true
implied_by_part a b = ground arith

abbrev pub ids : List ModelRow → List String
ids ms = map (λ m. m.id) ms

tested_id :
    (t : Tools) (meta : Fields) (s : DiscoveredModelStatus) (m : ModelRow) {m' : ModelRow}
    → tested t.int_of meta s m ≡ ok m'
    → m'.id ≡ m.id
unfolding tested
tested_id t meta s m {m'} h = elim (Bool-cases (passes s)) [
  | inl good ↦ ap (λ r. r.id) (sym (ok_inj (rw good at h)))
  | inr bad ↦
      let (count, e, h') =
        bind_ok {m = t.int_of (get_or "test_fail_count" (int (pos 0)) meta)} (rw bad at h) in
      ap (λ r. r.id) (sym (ok_inj h'))
]

check_model_id :
    (t : Tools) (providers : List ProviderRow) (m : ModelRow) (w : World) {m' : ModelRow}
    → (check_model t providers m w).0 ≡ ok m'
    → m'.id ≡ m.id
unfolding check_model
check_model_id t providers m w {m'} h =
    elim (Bool-cases (not m.is_active || truthy (get "premium" (load_meta m.meta)))) [
      | inl skipped ↦ ap (λ r. r.id) (sym (ok_inj (rw skipped at h)))
      | inr due ↦ elim (Option-cases (find_provider m.provider_id providers)) [
        | inl missing ↦ ap (λ r. r.id) (sym (ok_inj (rw (due, missing) at h)))
        | inr (p, found) ↦ tested_id t (load_meta m.meta) _ m (rw (due, found) at h)
      ]
    ]

check_models-ids :
    (t : Tools) (providers : List ProviderRow) (ms : List ModelRow) (w : World)
    {ms' : List ModelRow}
    → (check_models t providers ms w).0 ≡ ok ms'
    → ids ms' ≡ ids ms
unfolding check_models then_cons
check_models-ids t providers [] w {ms'} h = ap (map (λ m. m.id)) (sym (ok_inj h))
check_models-ids t providers (m ∷ ms) w {ms'} h =
    elim (Result-cases (check_model t providers m w).0) [
      | inl (row, good) ↦
          let w1 = (check_model t providers m w).1 in
          let (rest, e, h') =
            bind_ok {m = (check_models t providers ms w1).0} (rw (good, check_models) at h) in
          ap (map (λ m. m.id)) (sym (ok_inj h'))
          ∙ ap₂ (λ x xs. x ∷ xs) (check_model_id t providers m w good)
              (check_models-ids t providers ms w1 e)
      | inr (x, bad) ↦ absurd (not_ok (rw (bad, check_models) at h))
    ]
  where
    not_ok : {A : Type 0} {a : A} {x : Exception} → raise x ≡ ok a → ⊥
    not_ok h = ground arith

mark_all-ids :
    (provider_id : String) (names : Result (List String)) (ms : List ModelRow)
    → ids (mark_all provider_id names ms) ≡ ids ms
unfolding mark_all mark_missing
mark_all-ids provider_id (raise e) ms = refl
mark_all-ids provider_id (ok names) [] = refl
mark_all-ids provider_id (ok names) (m ∷ ms) =
    ground (arith, mark_all-ids provider_id (ok names) ms)

mark_providers-ids :
    (t : Tools) (ps : List ProviderRow) (ms : List ModelRow) (w : World)
    → ids (mark_providers t ps ms w).0 ≡ ids ms
unfolding mark_providers
mark_providers-ids t [] ms w = refl
mark_providers-ids t (p ∷ ps) ms w = mark_providers-ids t ps _ _ ∙ mark_all-ids p.id _ ms

-- A cleanup, whether it ends or raises, deletes no model and changes no model's id, whatever the
-- providers answer and the tables are; and for every id, a group that was there with this id and to
-- which some group or key refers is still there.
pub run_cleanup_keeps :
    (t : Tools) (now : ℕ) (max_age_days : Option ℕ) (d : Tables) (w : World) (id : String)
    → (ids (run_cleanup t now max_age_days d w).1.models ≡ ids d.models)
      × (implies
            (is_referred id d.groups d.api_keys && has_group id d.groups)
            (has_group id (run_cleanup t now max_age_days d w).1.groups)
          ≡ true)
unfolding run_cleanup finish keep_groups
run_cleanup_keeps t now max_age_days d w id =
    let (swept, w1) = sweep_providers t d.providers w in
    let checked = check_models t swept.providers d.models w1 in
    elim (Result-cases checked.0) [
      | inl (ms, good) ↦
          rw (good, run_cleanup)
            (
              mark_providers-ids t swept.providers ms checked.1
                  ∙ check_models-ids t swept.providers d.models w1 good,
              kept_if_used id d.groups d.api_keys,
            )
      | inr (x, bad) ↦
          rw (bad, run_cleanup)
            (refl, implied_by_part (is_referred id d.groups d.api_keys) (has_group id d.groups))
    ]
