-- ===== src/Discovery/Parsed.antt =====
-- What is left of a listing after the doubles are dropped.
use mathlib.Core.Path.{subst}
use demumumind_panel.Shared.{
  String, ◌≡◌, sym, ap, ◌∙◌, Bool, none, List, [], ◌∷◌, ◌==◌, eq_iff, eq_refl, any, arith,
  if◌then◌else◌, Bool-cases, inl, inr,
}
use demumumind_panel.Shared.Dict.{lookup, Distinct}
use demumumind_panel.Json.{Fields}
use demumumind_panel.Errors.{Exception, ok, raise}
use demumumind_panel.Manager.Reload.Priority.{Result-cases}
use demumumind_panel.Discovery.{Codec, raw_items, dedupe, parse_model_items}

abbrev seen_by : String → List String → Bool
seen_by k seen = any (λ s. s == k) seen

lookup-dedupe :
    (k : String) (seen : List String) (raw : List (String × Fields))
    → lookup k (dedupe seen raw) ≡ (if seen_by k seen then none else lookup k raw)
unfolding lookup dedupe
lookup-dedupe k seen [] = ground arith
lookup-dedupe k seen ((mid, meta) ∷ raw) =
    ground (arith, lookup-dedupe k seen raw, lookup-dedupe k (mid ∷ seen) raw, eq_iff mid k)

dedupe-Distinct : (seen : List String) (raw : List (String × Fields)) → Distinct (dedupe seen raw)
unfolding dedupe
dedupe-Distinct seen [] = tt
dedupe-Distinct seen ((mid, meta) ∷ raw) = elim (Bool-cases (seen_by mid seen)) [
  | inl old ↦ rw (old, dedupe) (dedupe-Distinct seen raw)
  | inr new ↦
      rw (new, dedupe)
        (
          ground (arith, lookup-dedupe mid (mid ∷ seen) raw, eq_refl mid),
          dedupe-Distinct (mid ∷ seen) raw,
        )
]

-- A parsed listing holds each id once, with the metadata of the first item of the response that has
-- it, and holds every id of the response.
pub parse_model_items-Distinct :
    (c : Codec) (protocol : String) (d : Fields) {items : List (String × Fields)}
    → parse_model_items c protocol d ≡ ok items
    → Distinct items
      × ((raw : List (String × Fields)) × (raw_items c protocol d ≡ ok raw)
          × ((mid : String) → lookup mid items ≡ lookup mid raw))
unfolding parse_model_items
parse_model_items-Distinct c protocol d {items} h = elim (Result-cases (raw_items c protocol d)) [
  | inl (raw, good) ↦
      let e : dedupe [] raw ≡ items = ok_inj (rw good at h) in
      (
        subst Distinct e (dedupe-Distinct [] raw),
        (raw, good, λ mid. ap (lookup mid) (sym e) ∙ lookup-dedupe mid [] raw),
      )
  | inr (x, bad) ↦ absurd (not_ok (rw bad at h))
]
  where
    ok_inj : {a b : List (String × Fields)} → ok a ≡ ok b → a ≡ b
    ok_inj h = ground arith

    not_ok : {b : List (String × Fields)} {x : Exception} → raise x ≡ ok b → ⊥
    not_ok h = ground arith
