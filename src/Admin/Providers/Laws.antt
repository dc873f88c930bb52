-- ===== src/Admin/Providers/Laws.antt =====
-- What the rows refer to after calls of the endpoints for providers, their keys and models.
use demumumind_panel.Shared.{
  String, ◌≡◌, refl, Bool, true, false, not, ◌&&◌, List, [], ◌∷◌, All, All-append, any, keep, ◌==◌,
  arith, eq_iff, if◌then◌else◌, Bool-cases, inl, inr,
}
use demumumind_panel.Json.{Value}
use demumumind_panel.Errors.{Result}
use demumumind_panel.Manager.{ProviderRow, ModelRow}
use demumumind_panel.Manager.Write.{
  CreateProviderRequest, UpdateProviderRequest, CreateModelRequest, update_provider, insert_model,
}
use demumumind_panel.Manager.Write.Ids.{has_id, insert_provider-ids, update_provider-ids}
use demumumind_panel.Admin.{ProviderKey, Admin, refreshed}
use demumumind_panel.Admin.Providers.{
  has_provider, with_provider, without_provider, create_provider, update_provider_endpoint,
  delete_provider, add_provider_key, delete_provider_key, create_model, delete_model,
}

-- a call of an endpoint, with the id of the row that it makes
pub data Command : Type 0 where
  creates_provider : String → CreateProviderRequest → Command
  updates_provider : String → UpdateProviderRequest → Command
  deletes_provider : String → Command
  adds_key : String → String → String → Command
  deletes_key : String → String → Command
  creates_model : String → CreateModelRequest → Command
  deletes_model : String → Command

module _ (to_str : Value → String) where
  abbrev pub step : Command → Admin → Admin
  step (creates_provider id body) a = (create_provider to_str id body a).1
  step (updates_provider id body) a = (update_provider_endpoint to_str id body a).1
  step (deletes_provider id) a = (delete_provider to_str id a).1
  step (adds_key id provider_id key) a = (add_provider_key to_str id provider_id key a).1
  step (deletes_key provider_id key_id) a = (delete_provider_key to_str provider_id key_id a).1
  step (creates_model id body) a = (create_model to_str id body a).1
  step (deletes_model id) a = (delete_model to_str id a).1

  abbrev pub run : List Command → Admin → Admin
  run [] a = a
  run (c ∷ cs) a = run cs (step c a)

-- Every model and every key of a provider names a provider of the table.
abbrev pub IsReferenced : Admin → Type 0
IsReferenced a =
    All (λ m. has_id m.provider_id a.providers ≡ true) a.models
    × All (λ k. has_id k.provider_id a.providers ≡ true) a.provider_keys

module _ {A : Type 0} where
  All-map_pred : (P Q : A → Type 0) → ((x : A) → P x → Q x) → (xs : List A) → All P xs → All Q xs
  All-map_pred P Q f [] h = tt
  All-map_pred P Q f (x ∷ xs) h = (f x h.0, All-map_pred P Q f xs h.1)

  All-keep_if :
      (P Q : A → Type 0) (p : A → Bool)
      → ((x : A) → p x ≡ true → P x → Q x)
      → (xs : List A) → All P xs
      → All Q (keep p xs)
  All-keep_if P Q p f [] h = tt
  All-keep_if P Q p f (x ∷ xs) h = elim (Bool-cases (p x)) [
    | inl kept ↦ rw (kept, keep) (f x kept h.0, All-keep_if P Q p f xs h.1)
    | inr dropped ↦ rw (dropped, keep) (All-keep_if P Q p f xs h.1)
  ]

-- an id other than the one that is deleted stays
keep-ids :
    (id x : String) (rows : List ProviderRow)
    → (x == id) ≡ false
    → has_id x rows ≡ true
    → has_id x (keep (λ p. not (p.id == id)) rows) ≡ true
keep-ids id x [] ne h = absurd (ground (arith, h))
keep-ids id x (p ∷ ps) ne h =
    ground (arith, ne, h, keep-ids id x ps ne, eq_iff p.id x, eq_iff p.id id)

with_provider-IsReferenced :
    {A : Type 0} (id : String) (rest : Admin → Result A × Admin) (a : Admin)
    → IsReferenced a
    → (has_id id a.providers ≡ true → IsReferenced (rest a).1)
    → IsReferenced (with_provider id rest a).1
unfolding with_provider has_provider
with_provider-IsReferenced id rest a v then_kept = elim (Bool-cases (has_id id a.providers)) [
  | inl there ↦ rw (there, with_provider, if◌then◌else◌) (then_kept there)
  | inr missing ↦ rw (missing, with_provider, if◌then◌else◌) v
]

without_provider-IsReferenced :
    (id : String) (a : Admin) → IsReferenced a → IsReferenced (without_provider id a)
unfolding without_provider
without_provider-IsReferenced id a (ms, ks) = (
  All-keep_if _ _ _ (λ m other. keep-ids id m.provider_id a.providers (not_true _ other)) a.models
      ms,
  All-keep_if _ _ _ (λ k other. keep-ids id k.provider_id a.providers (not_true _ other))
      a.provider_keys ks,
)
  where
    not_true : (b : Bool) → not b ≡ true → b ≡ false
    not_true true h = absurd (ground (arith, h))
    not_true false h = refl

module _ (to_str : Value → String) where
  refreshed-IsReferenced :
      {A : Type 0} (x : A) (a : Admin) → IsReferenced a → IsReferenced (refreshed to_str x a).1
  unfolding refreshed
  refreshed-IsReferenced x a v = v

  create_provider-IsReferenced :
      (id : String) (body : CreateProviderRequest) (a : Admin)
      → IsReferenced a
      → IsReferenced (create_provider to_str id body a).1
  unfolding create_provider
  create_provider-IsReferenced id body a (ms, ks) =
      elim (Bool-cases (any (λ p. p.name == body.name) a.providers)) [
        | inl taken ↦ rw (taken, create_provider, if◌then◌else◌) (ms, ks)
        | inr free ↦
            let grown = λ (x : String). insert_provider-ids id body x a.providers in
            rw (free, create_provider, if◌then◌else◌)
              (refreshed-IsReferenced true _ (
                All-map_pred _ _ (λ (m : ModelRow). grown m.provider_id) a.models ms,
                All-map_pred _ _ (λ (k : ProviderKey). grown k.provider_id) a.provider_keys ks,
              ))
      ]

  updated-IsReferenced :
      (id : String) (body : UpdateProviderRequest) (a : Admin)
      → IsReferenced a
      → IsReferenced (record a { providers = update_provider id body a.providers })
  updated-IsReferenced id body a (ms, ks) =
      let same = λ (x : String). update_provider-ids id body x a.providers in
      (
        All-map_pred _ _ (λ (m : ModelRow). same m.provider_id) a.models ms,
        All-map_pred _ _ (λ (k : ProviderKey). same k.provider_id) a.provider_keys ks,
      )

  delete_provider_key-IsReferenced :
      (provider_id key_id : String) (a : Admin)
      → IsReferenced a
      → IsReferenced (delete_provider_key to_str provider_id key_id a).1
  unfolding delete_provider_key
  delete_provider_key-IsReferenced provider_id key_id a v =
      with_provider-IsReferenced provider_id _ a v λ there.
        let wanted = λ (k : ProviderKey). k.id == key_id && k.provider_id == provider_id in
        elim (Bool-cases (any wanted a.provider_keys)) [
          | inl found ↦
              rw (found, if◌then◌else◌)
                (refreshed-IsReferenced true _
                  (v.0, All-keep_if _ _ (λ k. not (wanted k)) (λ k other h. h) a.provider_keys v.1))
          | inr missing ↦ rw (missing, if◌then◌else◌) v
        ]

  create_model-IsReferenced :
      (id : String) (body : CreateModelRequest) (a : Admin)
      → IsReferenced a
      → IsReferenced (create_model to_str id body a).1
  unfolding create_model insert_model
  create_model-IsReferenced id body a v = with_provider-IsReferenced body.provider_id _ a v λ there.
      elim (Bool-cases (
        any (λ m. m.provider_id == body.provider_id && m.user_model_id == body.user_model_id)
          a.models)) [
            | inl taken ↦ rw (taken, if◌then◌else◌) v
            | inr free ↦
                rw (free, if◌then◌else◌)
                  (refreshed-IsReferenced true _ (All-append _ a.models _ v.0 (there, tt), v.1))
          ]

  delete_model-IsReferenced :
      (id : String) (a : Admin) → IsReferenced a → IsReferenced (delete_model to_str id a).1
  unfolding delete_model
  delete_model-IsReferenced id a v = elim (Bool-cases (any (λ m. m.id == id) a.models)) [
    | inl found ↦
        rw (found, delete_model, if◌then◌else◌)
          (refreshed-IsReferenced true _
            (All-keep_if _ _ (λ m. not (m.id == id)) (λ m other h. h) a.models v.0, v.1))
    | inr missing ↦ rw (missing, delete_model, if◌then◌else◌) v
  ]

  step-IsReferenced : (c : Command) (a : Admin) → IsReferenced a → IsReferenced (step to_str c a)
  unfolding update_provider_endpoint delete_provider add_provider_key
  step-IsReferenced (creates_provider id body) a v = create_provider-IsReferenced id body a v
  step-IsReferenced (updates_provider id body) a v =
      with_provider-IsReferenced id _ a v
        λ there. refreshed-IsReferenced true _ (updated-IsReferenced id body a v)
  step-IsReferenced (deletes_provider id) a v =
      with_provider-IsReferenced id _ a v
        λ there. refreshed-IsReferenced true _ (without_provider-IsReferenced id a v)
  step-IsReferenced (adds_key id provider_id key) a v =
      with_provider-IsReferenced provider_id _ a v
        λ there. refreshed-IsReferenced _ _ (v.0, All-append _ a.provider_keys _ v.1 (there, tt))
  step-IsReferenced (deletes_key provider_id key_id) a v =
      delete_provider_key-IsReferenced provider_id key_id a v
  step-IsReferenced (creates_model id body) a v = create_model-IsReferenced id body a v
  step-IsReferenced (deletes_model id) a v = delete_model-IsReferenced id a v

  -- Any sequence of calls of the endpoints that create, update and delete providers, keys of providers
  -- and models, also of calls that fail: if every model and every key of a provider names a provider
  -- of the table before them, then also after them.
  pub run-IsReferenced :
      (cs : List Command) (a : Admin) → IsReferenced a → IsReferenced (run to_str cs a)
  run-IsReferenced [] a v = v
  run-IsReferenced (c ∷ cs) a v = run-IsReferenced cs (step to_str c a) (step-IsReferenced c a v)
