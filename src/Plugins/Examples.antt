-- ===== src/Plugins/Examples.antt =====
-- A plugin with an invalid signature, uploaded and called, and an upload that fails.
use demumumind_panel.Shared.{◌≡◌, refl, true, false, none, some, [], ◌∷◌}
use demumumind_panel.Json.{Value, null, str}
use demumumind_panel.Text.{Bytes, nonempty}
use demumumind_panel.Errors.{ok}
use demumumind_panel.Plugins.{
  Ed25519, Arguments, arguments_of, Attempt, done, failed, Wasm, Runtime, called, invoke_wasm,
}
use demumumind_panel.Plugins.Table.{result_of, upload_plugin, invoke_plugin}
use demumumind_panel.Plugins.Laws.{invoke_plugin-upload_plugin, invoke_plugin-failed_upload}

-- no signature verifies
abbrev keys : Ed25519
keys = record {
  from_hex = λ s. some [];
  from_public_bytes = λ b. some b;
  verifies = λ k s p. false;
}

-- An instance is the module; the empty one is refused.
abbrev instantiate : Bytes → Attempt Bytes
instantiate [] = failed "empty"
instantiate (b ∷ bs) = done (b ∷ bs)

abbrev greet : Arguments → Attempt Value
greet args = done (str "hi")

abbrev engine : Wasm Bytes
engine = record { instantiate = instantiate; export = λ i fn. some greet }

abbrev empty_runtime : Runtime Bytes
empty_runtime = record { plugins = []; instances = [] }

some_name : nonempty "p" ≡ true
unfolding nonempty
some_name = refl

invoke_plugin-upload_plugin_example :
    (let u = upload_plugin keys "k" (some engine) (1 ∷ []) (some "p") none ([], empty_runtime) in
      (invoke_plugin keys "k" (some engine) "p" "greet" null u.1 u.2).0)
    ≡ ok (result_of (called (greet (arguments_of null))))
invoke_plugin-upload_plugin_example =
    invoke_plugin-upload_plugin keys "k" engine (1 ∷ []) "p" none "greet" null [] empty_runtime
      (1 ∷ []) greet some_name refl refl

invoke_plugin-failed_upload_example :
    (let u = upload_plugin keys "k" (some engine) [] (some "p") none ([], empty_runtime) in
      invoke_plugin keys "k" (some engine) "p" "greet" null u.1 u.2
      ≡ (ok (result_of (invoke_wasm engine "p" "greet" null empty_runtime)), u.2))
invoke_plugin-failed_upload_example =
    invoke_plugin-failed_upload keys "k" engine [] "p" "empty" none "greet" null [] empty_runtime
      some_name refl
