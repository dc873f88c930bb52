-- ===== src/Admin/Keys/Laws.antt =====
-- The life of a client key, and who is let in by it.
use demumumind_panel.Shared.{
  String, ◌≡◌, refl, ap, true, false, Option, none, some, List, [], ◌∷◌, ◌++◌, map, ◌==◌, any,
  if◌then◌else◌, arith, eq_iff, Bool-cases, inl, inr,
}
use demumumind_panel.Shared.Dict.{lookup}
use demumumind_panel.Text.{◌+s◌, nonempty}
use demumumind_panel.Json.{Value}
use demumumind_panel.Errors.{Result, ok, raise, Exception}
use demumumind_panel.Manager.{present}
use demumumind_panel.Auth.{Request, hash_key, raw_key, or_key, client_key_hash}
use demumumind_panel.Admin.{ApiKey, Admin, hashes, refreshed}
use demumumind_panel.Admin.Keys.{
  CreateApiKeyRequest, ApiKeyCreated, new_key, create_key, find_key, without_key, delete_key,
}

some_inj : {A : Type 0} {a b : A} → some a ≡ some b → a ≡ b
some_inj h = cc

-- no hash stands twice
abbrev pub Distinct : List ApiKey → Type 0
Distinct [] = Unit {0}
Distinct (k ∷ ks) = (any (λ h. h == k.key_hash) (map (λ k. k.key_hash) ks) ≡ false) × Distinct ks

last_hash :
    (k : ApiKey) (ks : List ApiKey)
    → any (λ h. h == k.key_hash) (map (λ k. k.key_hash) (ks ++ k ∷ [])) ≡ true
last_hash k [] = ground (arith, eq_iff k.key_hash k.key_hash)
last_hash k (j ∷ ks) = ground (arith, last_hash k ks)

found_hash :
    (id : String) (k : ApiKey) (ks : List ApiKey)
    → find_key id ks ≡ some k
    → any (λ h. h == k.key_hash) (map (λ k. k.key_hash) ks) ≡ true
unfolding find_key
found_hash id k [] h = absurd (ground (arith, h))
found_hash id k (j ∷ ks) h = elim (Bool-cases (j.id == id)) [
  | inl here ↦
      let e : j ≡ k = some_inj (rw (here, if◌then◌else◌) at h) in
      rw (← e) (ground (arith, eq_iff j.key_hash j.key_hash))
  | inr elsewhere ↦
      let rest = found_hash id k ks (rw (elsewhere, if◌then◌else◌) at h) in ground (arith, rest)
]

removed_hash :
    (id : String) (k : ApiKey) (ks : List ApiKey)
    → Distinct ks
    → find_key id ks ≡ some k
    → any (λ h. h == k.key_hash) (map (λ k. k.key_hash) (without_key id ks)) ≡ false
unfolding find_key without_key
removed_hash id k [] d h = absurd (ground (arith, h))
removed_hash id k (j ∷ ks) d h = elim (Bool-cases (j.id == id)) [
  | inl here ↦ let e : j ≡ k = some_inj (rw (here, if◌then◌else◌) at h) in rw here (rw e at d.0)
  | inr elsewhere ↦
      let h' = rw (elsewhere, if◌then◌else◌) at h in
      let rest = removed_hash id k ks d.1 h' in
      let there = found_hash id k ks h' in
      elim (Bool-cases (j.key_hash == k.key_hash)) [
        | inl same ↦
            let e : j.key_hash ≡ k.key_hash = (eq_iff j.key_hash k.key_hash).0 same in
            absurd (ground (arith, rw e at d.0, there))
        | inr other ↦ rw (elsewhere, other, any) rest
      ]
]

or_first : (s : String) (a b : Option String) → a ≡ some s → nonempty s ≡ true → or_key a b ≡ some s
unfolding or_key present
or_first s a b h some_text = rw h (rw some_text)

header_first :
    (raw : String) (r : Request)
    → lookup "x-api-key" r.headers ≡ some raw
    → nonempty raw ≡ true
    → raw_key r ≡ some raw
unfolding raw_key
header_first raw r h some_text =
    or_first raw _ _ (or_first raw _ _ (or_first raw _ _ h some_text) some_text) some_text

let_in :
    (hmac_sha256 : String → String → String) (panel_key raw : String) (hs : List String)
    (r : Request)
    → lookup "x-api-key" r.headers ≡ some raw
    → nonempty raw ≡ true
    → client_key_hash hmac_sha256 panel_key hs r ≡ (
        if any (λ k. k == hash_key hmac_sha256 panel_key raw) hs
        then some (hash_key hmac_sha256 panel_key raw)
        else none)
unfolding client_key_hash
let_in hmac_sha256 panel_key raw hs r header some_text =
    rw (header_first raw r header some_text, client_key_hash, some_text)

module _ (to_str : Value → String) where
  refreshed-api_keys :
      {A : Type 0} (x : A) (a : Admin) → (refreshed to_str x a).1.api_keys ≡ a.api_keys
  unfolding refreshed
  refreshed-api_keys x a = refl

  answer_of :
      {A : Type 0} {x c : A} (r : Result (Unit {0}))
      → (elim r [ ok _ ↦ ok x | raise e ↦ raise e ]) ≡ ok c
      → x ≡ c
  answer_of (ok u) h = cc
  answer_of (raise e) h = absurd (ground (arith, h))

  refreshed-answer :
      {A : Type 0} (x : A) (a : Admin) {c : A} → (refreshed to_str x a).0 ≡ ok c → x ≡ c
  unfolding refreshed
  refreshed-answer x a h = answer_of _ h

  module _ (hmac_sha256 : String → String → String) (panel_key : String) where
    no_answer :
        {e : Exception} {c : ApiKeyCreated} {a a' : Admin}
        → ◌≡◌ {A = Result ApiKeyCreated × Admin} (raise e, a) (ok c, a')
        → ⊥
    no_answer h = ground (arith, h)

    dm_text : (hex : String) → nonempty ("dm-" +s hex) ≡ true
    unfolding nonempty ◌+s◌
    dm_text hex = refl

    with_key :
        (key : ApiKey) (a' : Admin) (raw : String) (r : Request)
        → key.key_hash ≡ hash_key hmac_sha256 panel_key raw
        → (ks : List ApiKey) → ks ++ key ∷ [] ≡ a'.api_keys
        → lookup "x-api-key" r.headers ≡ some raw
        → nonempty raw ≡ true
        → client_key_hash hmac_sha256 panel_key (hashes a') r
          ≡ some (hash_key hmac_sha256 panel_key raw)
    with_key key a' raw r hash ks same header some_text =
        rw (let_in hmac_sha256 panel_key raw (hashes a') r header some_text)
          (rw (← same, ← hash, last_hash key ks) refl)

    -- A key that `create_key` returns: a request with the raw key in x-api-key is let in, under the
    -- hash of this key.
    pub key_created :
        (id hex : String) (body : CreateApiKeyRequest) (a a' : Admin) (c : ApiKeyCreated)
        (r : Request)
        → create_key to_str hmac_sha256 panel_key id hex body a ≡ (ok c, a')
        → lookup "x-api-key" r.headers ≡ some c.api_key
        → client_key_hash hmac_sha256 panel_key (hashes a') r
          ≡ some (hash_key hmac_sha256 panel_key c.api_key)
    unfolding create_key refreshed new_key
    key_created id hex body a a' c r made header =
        let h = hash_key hmac_sha256 panel_key ("dm-" +s hex) in
        elim (Bool-cases (any (λ k. k == h) (hashes a))) [
          | inl taken ↦ absurd (no_answer (rw (taken, if◌then◌else◌) at made))
          | inr free ↦
              let made' = rw (free, if◌then◌else◌) at made in
              let key = new_key id h body in
              let e : record { id = id; api_key = "dm-" +s hex } ≡ c =
                refreshed-answer (record { id = id; api_key = "dm-" +s hex })
                  (record a { api_keys = a.api_keys ++ key ∷ [] })
                  (ap (λ (o : Result ApiKeyCreated × Admin). o.0) made') in
              let ks : a.api_keys ++ key ∷ [] ≡ a'.api_keys =
                ap (λ (o : Result ApiKeyCreated × Admin). o.1.api_keys) made' in
              let raw : "dm-" +s hex ≡ c.api_key = ap (λ (x : ApiKeyCreated). x.api_key) e in
              with_key key a' c.api_key r (ap (hash_key hmac_sha256 panel_key) raw) a.api_keys ks
                header (rw (← raw) (dm_text hex))
        ]

    -- A key that `delete_key` deletes, where no hash stands twice in the table: a request with the raw
    -- key in x-api-key is not let in by it any more.
    pub key_deleted :
        (id raw : String) (k : ApiKey) (a : Admin) (r : Request)
        → Distinct a.api_keys
        → find_key id a.api_keys ≡ some k
        → k.key_hash ≡ hash_key hmac_sha256 panel_key raw
        → nonempty raw ≡ true
        → lookup "x-api-key" r.headers ≡ some raw
        → client_key_hash hmac_sha256 panel_key (hashes (delete_key to_str id a).1) r ≡ none
    unfolding delete_key refreshed
    key_deleted id raw k a r d found hash some_text header =
        let gone = removed_hash id k a.api_keys d found in
        rw (let_in hmac_sha256 panel_key raw (hashes (delete_key to_str id a).1) r header some_text)
          (rw (found, delete_key, ← hash) (rw gone))
