-- ===== src/Auth/Laws.antt =====
-- Who is let in, by which credential.
use demumumind_panel.Shared.{
  String, ◌≡◌, ◌↔◌, refl, true, false, Option, none, some, List, [], ◌∷◌, ◌==◌, eq_iff, any, arith,
  if◌then◌else◌, Option-cases, inl, inr,
}
use demumumind_panel.Shared.Dict.{lookup}
use demumumind_panel.Text.{nonempty, is_ascii}
use demumumind_panel.Errors.{ok}
use demumumind_panel.Manager.{present}
use demumumind_panel.Auth.{
  Request, hash_key, bearer_token, compare_digest, is_panel_authorized, or_key, raw_key, known,
  client_key_hash,
}

-- The places of a credential, in the order in which they count.
abbrev pub credentials : Request → List (Option String)
credentials r =
    lookup "x-api-key" r.headers
    ∷ bearer_token (lookup "authorization" r.headers)
    ∷ lookup "x-goog-api-key" r.headers
    ∷ lookup "key" r.query_params
    ∷ []

-- The first text that is not empty.
abbrev pub first_present : List (Option String) → Option String
first_present [] = none
first_present (none ∷ os) = first_present os
first_present (some s ∷ os) = if nonempty s then some s else first_present os

-- What is done with a credential, of which the empty text is none.
use_key : (String → Option String) → Option String → Option String
use_key f none = none
use_key f (some raw) = if nonempty raw then f raw else none

use_key-or_key :
    (f : String → Option String) (a b : Option String)
    → use_key f (or_key a b) ≡ (if present a then use_key f a else use_key f b)
unfolding or_key
use_key-or_key f a b = ground arith

use_key-first :
    (f : String → Option String) (o : Option String) (os : List (Option String))
    → elim (first_present (o ∷ os)) [ none ↦ none | some raw ↦ f raw ] ≡ (
        if present o
        then use_key f o
        else elim (first_present os) [ none ↦ none | some raw ↦ f raw ])
unfolding use_key present
use_key-first f none os = refl
use_key-first f (some s) os = ground arith

present-or_key :
    (a b : Option String) → present (or_key a b) ≡ (if present a then true else present b)
unfolding or_key
present-or_key a b = ground arith

use_key_absent :
    (f : String → Option String) (o : Option String) → present o ≡ false → use_key f o ≡ none
unfolding use_key present
use_key_absent f none h = refl
use_key_absent f (some s) h = ground arith

use_key-first_present :
    (f : String → Option String) (a b c d : Option String)
    → use_key f (or_key (or_key (or_key a b) c) d)
      ≡ elim (first_present (a ∷ b ∷ c ∷ d ∷ [])) [ none ↦ none | some raw ↦ f raw ]
use_key-first_present f a b c d = ground (
  arith,
  use_key-or_key f (or_key (or_key a b) c) d,
  use_key-or_key f (or_key a b) c,
  use_key-or_key f a b,
  present-or_key (or_key a b) c,
  present-or_key a b,
  use_key-first f a (b ∷ c ∷ d ∷ []),
  use_key-first f b (c ∷ d ∷ []),
  use_key-first f c (d ∷ []),
  use_key-first f d [],
  use_key_absent f d,
)

-- The client of a request is known by the hash of its first credential that is not empty, in the
-- order x-api-key, bearer token, x-goog-api-key, query parameter, and only if that hash is in the
-- table of keys: a later credential never makes up for an unknown earlier one.
pub client_key_hash_lem :
    (hmac_sha256 : String → String → String) (panel_key : String) (hashes : List String)
    (r : Request)
    → client_key_hash hmac_sha256 panel_key hashes r ≡ elim (first_present (credentials r)) [
      | none ↦ none
      | some raw ↦
          if any (λ k. k == hash_key hmac_sha256 panel_key raw) hashes
          then some (hash_key hmac_sha256 panel_key raw)
          else none
    ]
unfolding client_key_hash raw_key known use_key
client_key_hash_lem hmac_sha256 panel_key hashes r =
    use_key-first_present
      (λ raw.
        if any (λ k. k == hash_key hmac_sha256 panel_key raw) hashes
        then some (hash_key hmac_sha256 panel_key raw)
        else none)
      (lookup "x-api-key" r.headers) (bearer_token (lookup "authorization" r.headers))
      (lookup "x-goog-api-key" r.headers) (lookup "key" r.query_params)

-- The panel is open exactly to the bearer token that is its key, where the key is an ASCII text, and
-- to nobody if the key is empty.
pub is_panel_authorized_iff :
    (panel_key : String) (r : Request)
    → (is_panel_authorized panel_key r ≡ ok true) ↔ (
        (bearer_token (lookup "authorization" r.headers) ≡ some panel_key)
        × (nonempty panel_key ≡ true)
        × (is_ascii panel_key ≡ true))
unfolding is_panel_authorized compare_digest
is_panel_authorized_iff panel_key r =
    elim (Option-cases (bearer_token (lookup "authorization" r.headers))) [
      | inl none_given ↦ ground (arith, none_given)
      | inr (token, given) ↦ ground (arith, given, eq_iff token panel_key)
    ]
