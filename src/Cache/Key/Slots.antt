-- ===== src/Cache/Key/Slots.antt =====
-- The slot of JSON answers and the slot of SSE texts do not mix.
use demumumind_panel.Shared.{
  ℕ, String, ◌≡◌, refl, sym, ap, ◌∙◌, true, false, ◌⊎◌, inl, inr, Option, ◌==◌, eq_iff, arith, ltb,
  length, Bool-cases,
}
use demumumind_panel.Shared.Dict.{has}
use demumumind_panel.Text.{◌+s◌, starts_with}
use demumumind_panel.Json.{Value}
use demumumind_panel.Errors.{ok}
use demumumind_panel.Cache.{CacheService}
use demumumind_panel.Cache.Laws.{IsValid}
use demumumind_panel.Cache.Reads.{first_is, get-set_ne}
use demumumind_panel.Cache.Key.{Digests, key, stream_key, get_cached, set_stream}

prefixed : (s : String) → starts_with ("stream:" +s s) "stream:" ≡ true
unfolding ◌+s◌ starts_with
prefixed s = refl

apart : (a b : String) → starts_with b "stream:" ≡ false → ("stream:" +s a == b) ≡ false
apart a b h = elim (Bool-cases ("stream:" +s a == b)) [
  | inr other ↦ other
  | inl same ↦
      let e : "stream:" +s a ≡ b = (eq_iff ("stream:" +s a) b).0 same in
      absurd (contradict (sym (prefixed a) ∙ ap (λ t. starts_with t "stream:") e ∙ h))
]
  where
    contradict : true ≡ false → ⊥
    contradict h = ground arith

-- If no digest begins like the prefix of the streams, as no hexadecimal text does, a write of an SSE
-- text into a valid cache leaves what a read of a JSON answer returns, of the same request or of any
-- other, unless its entry is the first of a full cache and is evicted for a new key.
pub get_cached-set_stream :
    (d : Digests) (panel_key : String) (now later : ℕ) (model prompt : String)
    (temperature : Option Value) (tools : Value) (value key_hash : String) (model' prompt' : String)
    (temperature' : Option Value) (tools' : Value) (key_hash' : String) (c : CacheService)
    → ((s : String) → starts_with (d.sha256 s) "stream:" ≡ false)
    → IsValid c
    → (has (stream_key d panel_key model prompt temperature tools key_hash) c.store ≡ true)
      ⊎ ((ltb (length c.store) c.max_entries ≡ true)
          ⊎ (first_is (key d panel_key model' prompt' temperature' tools' key_hash') c.store
              ≡ false))
    → (c' : CacheService) × (set_stream d panel_key now model prompt temperature tools value
          key_hash c
        ≡ ok c')
      × ((get_cached d panel_key later model' prompt' temperature' tools' key_hash' c').0
          ≡ (get_cached d panel_key later model' prompt' temperature' tools' key_hash' c).0)
unfolding set_stream get_cached stream_key key
get_cached-set_stream d panel_key now later model prompt temperature tools value key_hash model'
      prompt' temperature' tools' key_hash' c hex v room =
    get-set_ne now later _ _ value c v (apart _ _ (hex _)) room
