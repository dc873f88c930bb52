-- ===== src/Pool/Laws.antt =====
-- Which headers carry the key of a provider.
use demumumind_panel.Shared.{
  ℕ, String, ◌≡◌, refl, true, false, Option, none, some, [], ◌∷◌, arith, ◌==◌, if◌then◌else◌,
  Bool-cases, inl, inr,
}
use demumumind_panel.Shared.Dict.{lookup, insert, lookup-insert}
use demumumind_panel.Text.{◌+s◌, nonempty, or_text}
use demumumind_panel.Json.{Value}
use demumumind_panel.Pool.{
  Endpoint, protocol_header, key_headers, set_default, auth_headers, request,
}

no_version_header : (q : String) → ((protocol_header q).0 == "anthropic-version") ≡ false
unfolding protocol_header
no_version_header q = elim (Bool-cases (q == "azure")) [
  | inl h ↦ rw h refl
  | inr h ↦ elim (Bool-cases (q == "anthropic")) [
    | inl h2 ↦ rw (h, h2) refl
    | inr h2 ↦ elim (Bool-cases (q == "gemini")) [
      | inl h3 ↦ rw (h, h2, h3) refl
      | inr h3 ↦ rw (h, h2, h3) refl
    ]
  ]
]

key_headers-some :
    (q key : String)
    → nonempty key ≡ true
    → key_headers q (some key) ≡ ((protocol_header q).0, (protocol_header q).1 +s key) ∷ []
unfolding key_headers
key_headers-some q key h = rw h refl

set_default_single :
    (k v j w : String) → (j == k) ≡ false → set_default k v ((j, w) ∷ []) ≡ (j, w) ∷ (k, v) ∷ []
unfolding set_default lookup insert
set_default_single k v j w h = ground (arith, h)

lookup-pair :
    (name j w k v : String)
    → lookup name ((j, w) ∷ (k, v) ∷ [])
      ≡ (if j == name then some w else if k == name then some v else none)
unfolding lookup
lookup-pair name j w k v = refl

lookup-single :
    (name j w : String) → lookup name ((j, w) ∷ []) ≡ (if j == name then some w else none)
unfolding lookup
lookup-single name j w = refl

auth_headers_key :
    (p : Endpoint) (key : String)
    → p.api_key ≡ some key
    → nonempty key ≡ true
    → let q = or_text p.protocol "openai" in
      let (header, before) = protocol_header q in
      auth_headers p ≡ (
        if q == "anthropic"
        then (header, before +s key) ∷ ("anthropic-version", "2023-06-01") ∷ []
        else (header, before +s key) ∷ [])
unfolding auth_headers
auth_headers_key p key e h =
    let q = or_text p.protocol "openai" in
    rw (e, key_headers-some q key h, set_default_single _ _ _ _ (no_version_header q)) refl

lookup-auth_headers :
    (p : Endpoint) (key name : String)
    → p.api_key ≡ some key
    → nonempty key ≡ true
    → lookup name (auth_headers p) ≡ (
        if (protocol_header (or_text p.protocol "openai")).0 == name
        then some ((protocol_header (or_text p.protocol "openai")).1 +s key)
        else if or_text p.protocol "openai" == "anthropic"
        then (if "anthropic-version" == name then some "2023-06-01" else none)
        else none)
lookup-auth_headers p key name e h =
    elim (Bool-cases (or_text p.protocol "openai" == "anthropic")) [
      | inl yes' ↦ rw (auth_headers_key p key e h, yes', lookup-pair) refl
      | inr no' ↦ rw (auth_headers_key p key e h, no', lookup-single) refl
    ]

-- The headers of a request to a provider with a key, whatever its protocol: the request id under
-- X-Request-ID, the key under the header of the protocol (Authorization as a bearer token for
-- "openai", "cohere", "ollama", the empty and every unknown protocol), the version under
-- anthropic-version for "anthropic" only, and nothing under any other name.
pub request_headers :
    (p : Endpoint) (path method : String) (body : Option Value) (rid key name : String)
    (timeout : Option ℕ)
    → p.api_key ≡ some key
    → nonempty key ≡ true
    → lookup name (request p path method body rid timeout).headers ≡ (
        if "X-Request-ID" == name
        then some rid
        else if (protocol_header (or_text p.protocol "openai")).0 == name
        then some ((protocol_header (or_text p.protocol "openai")).1 +s key)
        else if or_text p.protocol "openai" == "anthropic"
        then (if "anthropic-version" == name then some "2023-06-01" else none)
        else none)
unfolding request
request_headers p path method body rid key name timeout e h = ground (
  arith,
  lookup-insert "X-Request-ID" name rid (auth_headers p),
  lookup-auth_headers p key name e h,
)
